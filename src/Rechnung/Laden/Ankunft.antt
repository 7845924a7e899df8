-- ===== src/Rechnung/Laden/Ankunft.antt =====
-- When the orders that the database delivers are merged: once and all of them where they are
-- loaded at one time, and wrongly where one more comes later.
use smolokellner.Base.{suc, ◌+◌, ◌≤◌, ◌<◌, ◌≡◌, ◌≢◌, refl, sym, ap, ◌∙◌, arith}
use smolokellner.Base.{
  Option, none, some, List, [], ◌∷◌, ◌++◌, append_assoc, append-nil, length, length-append,
}
use smolokellner.Base.{◌==◌, eq→==, ne→==, true, false}
use smolokellner.Rechnung.Daten.{Equal, ◌>>=◌, KellnerTvSection, BestellungFertig, FertiggestelltVc}
use smolokellner.Rechnung.Zusammenfuehren.{je_tisch, bestellungen_zusammenfuehren}
use smolokellner.Rechnung.Laden.{Inhalt, sections_anlegen, bestellung_geladen}

module _ {Text Preis : Type 0} where
  -- The dictionaries have these orders for these identifiers.
  unfoldable pub Delivers :
      Inhalt Text Preis → List Text → List (KellnerTvSection Text Preis) → Type 0
  Delivers inhalt [] [] = Unit
  Delivers inhalt (id ∷ ids) (b ∷ bs) = (inhalt.section_of id ≡ some b) × Delivers inhalt ids bs
  Delivers inhalt _ _ = ⊥

bind_some : {A : Type 0} (out : Option A) → (out >>= λ x. some x) ≡ out
bind_some none = refl
bind_some (some x) = refl

module _ {Text Preis : Type 0} ⦃eq : Equal Text⦄ where
  -- The screen with more orders loaded.
  abbrev pub mit_bestellungen :
      FertiggestelltVc Text Preis → List (KellnerTvSection Text Preis) → FertiggestelltVc Text Preis
  mit_bestellungen vc bs = record vc { bestellungen = vc.bestellungen ++ bs }

  count_one :
      (vc : FertiggestelltVc Text Preis) (b : KellnerTvSection Text Preis)
      → length (vc.bestellungen ++ b ∷ []) ≡ suc (length vc.bestellungen)
  count_one vc b = omega (arith, length-append vc.bestellungen (b ∷ []))

  merging_step :
      (inhalt : Inhalt Text Preis) (id : Text) (ids : List Text) (b : KellnerTvSection Text Preis)
      → (vc : FertiggestelltVc Text Preis) → inhalt.section_of id ≡ some b
      → suc (length vc.bestellungen) ≡ length vc.bestellung_ids
      → sections_anlegen inhalt (id ∷ ids) vc ≡ (
          bestellungen_zusammenfuehren (mit_bestellungen vc (b ∷ [])) >>= λ vc'.
          sections_anlegen inhalt ids vc')
  unfolding sections_anlegen
  merging_step inhalt id ids b vc h count = rw (h) (rw (all_there) refl)
    where
      all_there : (length (vc.bestellungen ++ b ∷ []) == length vc.bestellung_ids) ≡ true
      all_there = eq→== _ _ (count_one vc b ∙ count)

  waiting_step :
      (inhalt : Inhalt Text Preis) (id : Text) (ids : List Text) (b : KellnerTvSection Text Preis)
      → (vc : FertiggestelltVc Text Preis) → inhalt.section_of id ≡ some b
      → suc (length vc.bestellungen) ≢ length vc.bestellung_ids
      → sections_anlegen inhalt (id ∷ ids) vc
        ≡ sections_anlegen inhalt ids (mit_bestellungen vc (b ∷ []))
  unfolding sections_anlegen
  waiting_step inhalt id ids b vc h count = rw (h) (rw (missing) refl)
    where
      missing : (length (vc.bestellungen ++ b ∷ []) == length vc.bestellung_ids) ≡ false
      missing = ne→== _ _ (λ e. count (sym (count_one vc b) ∙ e))

  -- The loop merges when it has made the last section, where none was there before.
  alle-anlegen :
      (inhalt : Inhalt Text Preis) (ids : List Text) (bs : List (KellnerTvSection Text Preis))
      → (vc : FertiggestelltVc Text Preis) → Delivers inhalt ids bs
      → 0 < length ids
      → length vc.bestellungen + length ids ≡ length vc.bestellung_ids
      → sections_anlegen inhalt ids vc ≡ bestellungen_zusammenfuehren (mit_bestellungen vc bs)
  unfolding sections_anlegen Delivers
  alle-anlegen inhalt [] bs vc h some_id count = absurd (omega arith)
  alle-anlegen inhalt (id ∷ ids) [] vc h some_id count = elim h [ ]
  alle-anlegen inhalt (id ∷ []) (b ∷ []) vc h some_id count =
      merging_step inhalt id [] b vc h.0 (omega arith) ∙ bind_some _
  alle-anlegen inhalt (id ∷ []) (b ∷ b' ∷ bs) vc h some_id count = elim h.1 [ ]
  alle-anlegen inhalt (id ∷ id' ∷ ids) (b ∷ bs) vc h some_id count =
      waiting_step inhalt id (id' ∷ ids) b vc h.0 (λ e. absurd (omega arith))
      ∙ alle-anlegen inhalt (id' ∷ ids) bs (mit_bestellungen vc (b ∷ [])) h.1 (omega arith)
          (omega (arith, count_one vc b))
      ∙ ap (λ xs. bestellungen_zusammenfuehren (record vc { bestellungen = xs }))
          (append_assoc vc.bestellungen (b ∷ []) bs)

  -- Past that, the loop only appends.
  weiter-anlegen :
      (inhalt : Inhalt Text Preis) (ids : List Text) (bs : List (KellnerTvSection Text Preis))
      → (vc : FertiggestelltVc Text Preis) → Delivers inhalt ids bs
      → length vc.bestellung_ids ≤ length vc.bestellungen
      → sections_anlegen inhalt ids vc ≡ some (mit_bestellungen vc bs)
  unfolding sections_anlegen Delivers
  weiter-anlegen inhalt [] [] vc h done =
      ap (λ xs. some (record vc { bestellungen = xs })) (sym (append-nil vc.bestellungen))
  weiter-anlegen inhalt [] (b ∷ bs) vc h done = elim h [ ]
  weiter-anlegen inhalt (id ∷ ids) [] vc h done = elim h [ ]
  weiter-anlegen inhalt (id ∷ ids) (b ∷ bs) vc h done =
      waiting_step inhalt id ids b vc h.0 (λ e. absurd (omega arith))
      ∙ weiter-anlegen inhalt ids bs (mit_bestellungen vc (b ∷ [])) h.1
          (omega (arith, count_one vc b))
      ∙ ap (λ xs. some (record vc { bestellungen = xs })) (append_assoc vc.bestellungen (b ∷ []) bs)

  -- Once the database has delivered all the orders of an empty screen, they are merged together.
  pub bestellung_geladen-all :
      (inhalt : Inhalt Text Preis) (bs : List (KellnerTvSection Text Preis))
      → (vc : FertiggestelltVc Text Preis) → vc.bestellungen ≡ []
      → 0 < length vc.bestellung_ids
      → inhalt.zahl ≡ length vc.bestellung_ids
      → Delivers inhalt vc.bestellung_ids bs
      → bestellung_geladen inhalt vc
        ≡ bestellungen_zusammenfuehren (record vc { bestellungen = bs })
  unfolding bestellung_geladen
  bestellung_geladen-all inhalt bs vc fresh some_id zahl h =
      rw (eq→== (length vc.bestellung_ids) inhalt.zahl (sym zahl)) (
        alle-anlegen inhalt vc.bestellung_ids bs vc h some_id (omega (arith, ap length fresh))
        ∙ ap (λ xs. bestellungen_zusammenfuehren (record vc { bestellungen = xs ++ bs })) fresh)

  -- Before the last order has come, nothing is merged.
  pub bestellung_geladen-wait :
      (inhalt : Inhalt Text Preis) (vc : FertiggestelltVc Text Preis)
      → inhalt.zahl ≢ length vc.bestellung_ids
      → bestellung_geladen inhalt vc ≡ some vc
  unfolding bestellung_geladen
  bestellung_geladen-wait inhalt vc zahl =
      rw (ne→== (length vc.bestellung_ids) inhalt.zahl (λ e. zahl (sym e))) refl

  -- What merging leaves as it is.
  merged_keeps :
      (neue : Option (List (BestellungFertig Text Preis))) (ids : List Text)
      → (inhalt : Inhalt Text Preis) (bs : List (KellnerTvSection Text Preis))
      → (vc : FertiggestelltVc Text Preis) → Delivers inhalt ids bs
      → length vc.bestellung_ids ≤ length vc.bestellungen
      → ((neue >>= λ fs. some (record vc { bestellungen_fertig = vc.bestellungen_fertig ++ fs }))
          >>= λ vc'. sections_anlegen inhalt ids vc')
        ≡ (neue >>= λ fs. some (
            mit_bestellungen (record vc { bestellungen_fertig = vc.bestellungen_fertig ++ fs }) bs))
  merged_keeps none ids inhalt bs vc h done = refl
  merged_keeps (some fs) ids inhalt bs vc h done =
      weiter-anlegen inhalt ids bs
        (record vc { bestellungen_fertig = vc.bestellungen_fertig ++ fs }) h done

  -- Where the screen has loaded all its orders but one, and the dictionaries now have that one too,
  -- what is merged is the orders of the screen and the first one again; the bills that this makes
  -- are appended to those that are there.
  pub bestellung_geladen-later :
      (inhalt : Inhalt Text Preis) (id : Text) (ids : List Text)
      → (b : KellnerTvSection Text Preis) (bs : List (KellnerTvSection Text Preis))
      → (vc : FertiggestelltVc Text Preis) → vc.bestellung_ids ≡ id ∷ ids
      → length vc.bestellungen ≡ length ids
      → inhalt.zahl ≡ length vc.bestellung_ids
      → inhalt.section_of id ≡ some b
      → Delivers inhalt ids bs
      → bestellung_geladen inhalt vc ≡ (
          je_tisch 0 vc.tischnummer_ids (vc.bestellungen ++ b ∷ []) >>= λ neue. some (record vc {
            bestellungen = (vc.bestellungen ++ b ∷ []) ++ bs;
            bestellungen_fertig = vc.bestellungen_fertig ++ neue;
          }))
  unfolding bestellung_geladen bestellungen_zusammenfuehren
  bestellung_geladen-later inhalt id ids b bs vc list count zahl h more =
      rw (eq→== (length vc.bestellung_ids) inhalt.zahl (sym zahl)) (
        ap (λ l. sections_anlegen inhalt l vc) list
        ∙ merging_step inhalt id ids b vc h (omega (arith, ap length list))
        ∙ merged_keeps (je_tisch 0 vc.tischnummer_ids (vc.bestellungen ++ b ∷ [])) ids inhalt bs
            (mit_bestellungen vc (b ∷ [])) more (omega (arith, ap length list, count_one vc b)))
