-- ===== src/Speisekarte/Verfuegbar.antt =====
-- Switching an item of the menu on and off: `pass` of SMOLO+/Views/ProdukteVC.swift, which the
-- button of an item calls by Cells/produktCell.swift.
use smolokellner.Base.{ℕ, Bool, true, false, not, Option, some, List, ◌≡◌, refl}
use smolokellner.Base.{get_elem?, set, get-set, set-set, set-get}
use smolokellner.Rechnung.Daten.{◌>>=◌}
use smolokellner.Kellner.Datenbank.{Datenbank}
use smolokellner.Speisekarte.{ExpandTvSection2}

-- Where the database keeps whether an item can be ordered: the names of the category, of the
-- subcategory and of the item under "Speisekarten" and the bar.
abbrev pub Ort : Type 0 → Type 0
Ort Text = Text × Text × Text

not-not : (b : Bool) → not (not b) ≡ b
not-not true = refl
not-not false = refl

module _ {Text Preis Stand : Type 0} ⦃db : Datenbank (Ort Text) Bool Stand⦄ where
  open db use {get, update_child, get_same, get_other}

  -- The state is the sections and the database; `section` is `cellIndexPathSection`, and the other
  -- two are `sender.section2` and `sender.row2`.
  unfoldable pub pass :
      (section section2 row2 : ℕ)
      → List (ExpandTvSection2 Text Preis) × Stand
      → Option (List (ExpandTvSection2 Text Preis) × Stand)
  pass section section2 row2 (sections, s) = get_elem? sections section >>= λ e.
      get_elem? e.unterkategorie section2 >>= λ unterkategorie.
      get_elem? e.spalten.items section2 >>= λ items. get_elem? items row2 >>= λ item.
      get_elem? e.spalten.verfuegbarkeit section2 >>= λ verfuegbarkeiten.
      get_elem? verfuegbarkeiten row2 >>= λ verfuegbarkeit. some (
        set sections section (record e {
          spalten = record e.spalten {
            verfuegbarkeit =
                set e.spalten.verfuegbarkeit section2
                  (set verfuegbarkeiten row2 (not verfuegbarkeit));
          };
        }),
        update_child s (e.kategorie, unterkategorie, item) (not verfuegbarkeit),
      )

  -- Switching an item twice brings every section back as it was, and writes to the item's place in
  -- the database first the opposite of what the screen showed and then what it showed.
  pub pass-pass :
      (section section2 row2 : ℕ) (sections : List (ExpandTvSection2 Text Preis)) (s : Stand)
      → (e : ExpandTvSection2 Text Preis) (unterkategorie item : Text) (items : List Text)
      → (vs : List Bool) (v : Bool) → get_elem? sections section ≡ some e
      → get_elem? e.unterkategorie section2 ≡ some unterkategorie
      → get_elem? e.spalten.items section2 ≡ some items
      → get_elem? items row2 ≡ some item
      → get_elem? e.spalten.verfuegbarkeit section2 ≡ some vs
      → get_elem? vs row2 ≡ some v
      → (pass section section2 row2 (sections, s) >>= pass section section2 row2)
        ≡ some (
          sections,
          update_child
              (update_child s (e.kategorie, unterkategorie, item) (not v))
              (e.kategorie, unterkategorie, item)
              v,
        )
  unfolding pass
  pass-pass section section2 row2 sections s e unterkategorie item items vs v a b c d f g = rw (a) (
      rw (b) (
        rw (c) (
          rw (d) (
            rw (f) (
              rw (g) (
                rw (get-set sections section e _ a) (
                  rw (b) (
                    rw (c) (
                      rw (d) (
                        rw (get-set e.spalten.verfuegbarkeit section2 vs _ f) (
                          rw (get-set vs row2 v (not v) g) (
                            rw (not-not v) (
                              rw (set-set sections section) (
                                rw (set-set e.spalten.verfuegbarkeit section2) (
                                  rw (set-set vs row2) (
                                    rw (set-get vs row2 v g) (
                                      rw (set-get e.spalten.verfuegbarkeit section2 vs f)
                                        (rw (set-get sections section e a) refl))))))))))))))))))
