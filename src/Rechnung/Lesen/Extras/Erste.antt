-- ===== src/Rechnung/Lesen/Extras/Erste.antt =====
-- The extras of the first subcategory of an order's first category, and the price of the order.
use smolokellner.Base.{ℕ, ◌≡◌, ◌<◌, refl, sym, ap, ◌∙◌, arith, Bool, true, false, ◌&&◌}
use smolokellner.Base.{Option, none, some, List, [], ◌∷◌, ◌++◌, append_assoc, length, length-append}
use smolokellner.Base.{All, map, length-map, map-append, ◌==◌, if◌then◌else◌}
use mathlib.Core.List.{reverse, reverse_aux}
use smolokellner.Rechnung.Daten.{Equal, index_of, same_list}
use smolokellner.Rechnung.Lesen.Extras.{Extra, ExtrasSnap, ExtraSpalten}
use smolokellner.Rechnung.Lesen.Extras.{Lesestand, merken, voll, vorn_einfuegen, erste_spalten}
use smolokellner.Rechnung.Lesen.Extras.{je_extra, je_itemssnap, extra_erst, extras_unter_erste}
use smolokellner.Rechnung.Lesen.Extras.{extras_je_unter, lies_extras}

and-same : (b : Bool) → (b && b) ≡ b
and-same true = refl
and-same false = refl

module _ {Text Preis : Type 0} where
  -- What is collected of an item when some of its extras are read.
  abbrev gesammelt :
      Option (ExtraSpalten Text Preis) → List (Extra Text Preis) → Lesestand Text Preis
  gesammelt sp es = record {
    spalten = sp;
    extras_string = map (λ e. e.item_name) es;
    extras_preis = map (λ e. e.item_preis) es;
  }

  -- Every child of "Extras" is a dictionary, and there is one.
  abbrev pub IsVoll : ExtrasSnap Text Preis → Type 0
  IsVoll snap = (snap.children_count ≡ length snap.extras) × (0 < length snap.extras)

  abbrev pub extra_preise : ExtrasSnap Text Preis → List Preis
  extra_preise snap = map (λ e. e.item_preis) snap.extras

  abbrev eine : List (List Text) → List (List Preis) → ExtraSpalten Text Preis
  eine ns ps = record { namen = (ns ∷ []) ∷ []; preise = (ps ∷ []) ∷ [] }

  merken_lem :
      (sp : Option (ExtraSpalten Text Preis)) (done : List (Extra Text Preis))
      (e : Extra Text Preis)
      → merken e (gesammelt sp done) ≡ gesammelt sp (done ++ e ∷ [])
  unfolding merken
  merken_lem sp done e =
      rw (sym (map-append (λ e. e.item_name) done (e ∷ [])))
        (rw (sym (map-append (λ e. e.item_preis) done (e ∷ []))) refl)

  voll_lem :
      (count : ℕ) (sp : Option (ExtraSpalten Text Preis)) (es : List (Extra Text Preis)) (b : Bool)
      → (length es == count) ≡ b
      → voll count (gesammelt sp es) ≡ b
  unfolding voll
  voll_lem count sp es b h =
      rw (length-map (λ e. e.item_name) es)
        (rw (length-map (λ e. e.item_preis) es) (rw (h) (and-same b)))

  -- A step that collects extras up to the last one, and then lays them down.
  sammeln :
      (f : Extra Text Preis → Lesestand Text Preis → Option (Lesestand Text Preis))
      → (sp : Option (ExtraSpalten Text Preis)) (count : ℕ)
      → (ende : List (Extra Text Preis) → Lesestand Text Preis)
      → ((done : List (Extra Text Preis)) (e : Extra Text Preis)
          → (length (done ++ e ∷ []) == count) ≡ false
          → f e (gesammelt sp done) ≡ some (gesammelt sp (done ++ e ∷ [])))
      → ((done : List (Extra Text Preis)) (e : Extra Text Preis)
          → (length (done ++ e ∷ []) == count) ≡ true
          → f e (gesammelt sp done) ≡ some (ende (done ++ e ∷ [])))
      → (done : List (Extra Text Preis)) (e : Extra Text Preis) (rest : List (Extra Text Preis))
      → count ≡ length (done ++ e ∷ rest)
      → je_extra f (e ∷ rest) (gesammelt sp done) ≡ some (ende (done ++ e ∷ rest))
  unfolding je_extra
  sammeln f sp count ende on last done e [] h = rw (last done e (ground arith)) refl
  sammeln f sp count ende on last done e (e' ∷ rest) h = rw (on done e fewer) (
      sammeln f sp count ende on last (done ++ e ∷ []) e' rest
        (h ∙ ap length (sym (append_assoc done (e ∷ []) (e' ∷ rest))))
      ∙ ap (λ l. some (ende l)) (append_assoc done (e ∷ []) (e' ∷ rest)))
    where
      fewer : (length (done ++ e ∷ []) == count) ≡ false
      fewer = ground (arith, h, length-append done (e ∷ []), length-append done (e ∷ e' ∷ rest))

module _ {Text Preis : Type 0} ⦃eq : Equal Text⦄ where
  open eq use {same, same_refl}

  abbrev erst :
      Text → Text → ℕ → Extra Text Preis → Lesestand Text Preis → Option (Lesestand Text Preis)
  erst key ukey = extra_erst (key ∷ []) ((ukey ∷ []) ∷ []) key ukey

  erst_neu :
      (key ukey : Text) (count : ℕ) (done : List (Extra Text Preis)) (e : Extra Text Preis)
      → (b : Bool) → (length (done ++ e ∷ []) == count) ≡ b
      → erst key ukey count e (gesammelt none done) ≡ (
          if b
          then some (
              gesammelt
                (some (
                  eine
                    (map (λ e. e.item_name) (done ++ e ∷ []) ∷ [])
                    (map (λ e. e.item_preis) (done ++ e ∷ []) ∷ [])))
                [])
          else some (gesammelt none (done ++ e ∷ [])))
  unfolding extra_erst erste_spalten
  erst_neu key ukey count done e b h =
      rw (merken_lem none done e) (rw (voll_lem count none (done ++ e ∷ []) b h) refl)

  erst_mehr :
      (key ukey : Text) (count : ℕ) (ns : List (List Text)) (ps : List (List Preis))
      → (done : List (Extra Text Preis)) (e : Extra Text Preis) (b : Bool)
      → (length (done ++ e ∷ []) == count) ≡ b
      → erst key ukey count e (gesammelt (some (eine ns ps)) done) ≡ (
          if b
          then some (gesammelt (some (eine ns (map (λ e. e.item_preis) (done ++ e ∷ []) ∷ ps))) [])
          else some (gesammelt (some (eine ns ps)) (done ++ e ∷ [])))
  unfolding extra_erst vorn_einfuegen index_of same_list
  erst_mehr key ukey count ns ps done e b h = rw (merken_lem (some (eine ns ps)) done e) (
      rw (voll_lem count (some (eine ns ps)) (done ++ e ∷ []) b h)
        (rw (same_refl key) (rw (same_refl ukey) refl)))

  snap_neu :
      (key ukey : Text) (snap : ExtrasSnap Text Preis)
      → IsVoll snap
      → je_extra (erst key ukey snap.children_count) snap.extras (gesammelt none [])
        ≡ some (
            gesammelt
              (some (eine (map (λ e. e.item_name) snap.extras ∷ []) (extra_preise snap ∷ [])))
              [])
  snap_neu key ukey snap h = go snap.extras h.1 h.0
    where
      go :
          (es : List (Extra Text Preis))
          → 0 < length es
          → snap.children_count ≡ length es
          → je_extra (erst key ukey snap.children_count) es (gesammelt none [])
            ≡ some (
                gesammelt
                  (some (eine (map (λ e. e.item_name) es ∷ []) (map (λ e. e.item_preis) es ∷ [])))
                  [])
      go [] lt h = absurd (omega arith)
      go (e ∷ es) lt h =
          sammeln (erst key ukey snap.children_count) none snap.children_count
            (λ l.
              gesammelt
                (some (eine (map (λ e. e.item_name) l ∷ []) (map (λ e. e.item_preis) l ∷ []))) [])
            (λ done e h. erst_neu key ukey snap.children_count done e false h)
            (λ done e h. erst_neu key ukey snap.children_count done e true h) [] e es h

  snap_mehr :
      (key ukey : Text) (ns : List (List Text)) (ps : List (List Preis))
      → (snap : ExtrasSnap Text Preis) → IsVoll snap
      → je_extra (erst key ukey snap.children_count) snap.extras (gesammelt (some (eine ns ps)) [])
        ≡ some (gesammelt (some (eine ns (extra_preise snap ∷ ps))) [])
  snap_mehr key ukey ns ps snap h = go snap.extras h.1 h.0
    where
      go :
          (es : List (Extra Text Preis))
          → 0 < length es
          → snap.children_count ≡ length es
          → je_extra (erst key ukey snap.children_count) es (gesammelt (some (eine ns ps)) [])
            ≡ some (gesammelt (some (eine ns (map (λ e. e.item_preis) es ∷ ps))) [])
      go [] lt h = absurd (omega arith)
      go (e ∷ es) lt h =
          sammeln (erst key ukey snap.children_count) (some (eine ns ps)) snap.children_count
            (λ l. gesammelt (some (eine ns (map (λ e. e.item_preis) l ∷ ps))) [])
            (λ done e h. erst_mehr key ukey snap.children_count ns ps done e false h)
            (λ done e h. erst_mehr key ukey snap.children_count ns ps done e true h) [] e es h

  alle_mehr :
      (key ukey : Text) (ns : List (List Text)) (ps : List (List Preis))
      → (snaps : List (ExtrasSnap Text Preis)) → All IsVoll snaps
      → je_itemssnap (erst key ukey) (map some snaps) (gesammelt (some (eine ns ps)) [])
        ≡ some (gesammelt (some (eine ns (reverse_aux (map extra_preise snaps) ps))) [])
  unfolding je_itemssnap
  alle_mehr key ukey ns ps [] h = refl
  alle_mehr key ukey ns ps (snap ∷ snaps) h =
      rw (snap_mehr key ukey ns ps snap h.0)
        (alle_mehr key ukey ns (extra_preise snap ∷ ps) snaps h.1)

  -- Reading the extras of an order with one category and one subcategory, each of whose items has
  -- extras, all of them dictionaries: the prices of the extras are kept by item from the last item
  -- to the first, and of the names only those of the first item.
  pub lies_extras-reverse :
      (key ukey : Text) (snap : ExtrasSnap Text Preis) (snaps : List (ExtrasSnap Text Preis))
      → All IsVoll (snap ∷ snaps)
      → lies_extras
          (record {
            key = key;
            unterkategorien = record { key = ukey; items = map some (snap ∷ snaps) } ∷ [];
          }
            ∷ [])
          none
          none
          (record { spalten = none; extras_string = []; extras_preis = [] })
        ≡ some (record {
          spalten = some (record {
            namen = ((map (λ e. e.item_name) snap.extras ∷ []) ∷ []) ∷ [];
            preise = (reverse (map extra_preise (snap ∷ snaps)) ∷ []) ∷ [];
          });
          extras_string = [];
          extras_preis = [];
        })
  unfolding lies_extras extras_je_unter extras_unter_erste je_itemssnap
  lies_extras-reverse key ukey snap snaps h = rw (snap_neu key ukey snap h.0) (
      rw
        (alle_mehr key ukey (map (λ e. e.item_name) snap.extras ∷ []) (extra_preise snap ∷ []) snaps
          h.1)
        refl)
