-- ===== src/Rechnung/Laden/Anfang.antt =====
-- The first orders of a screen that has just opened: from the children that the observer reports
-- to the merged bills.
use smolokellner.Base.{suc, ◌<◌, ◌≡◌, ◌≢◌, refl, sym, ap, ◌∙◌, arith, inl, inr}
use smolokellner.Base.{some, List, [], ◌∷◌, ◌++◌, All, All-map, append_assoc, append-nil, length}
use smolokellner.Base.{Bool-cases, true}
use smolokellner.Rechnung.Daten.{Equal, KellnerTvSection, FertiggestelltVc}
use smolokellner.Rechnung.Laden.{Inhalt, merke_tisch, neue_bestellung, bestellung_geladen}
use smolokellner.Rechnung.Laden.Ankunft.{Delivers, bestellung_geladen-all}
use smolokellner.Rechnung.Zusammenfuehren.Tisch.{IsOrder, of_tisch}
use smolokellner.Rechnung.Zusammenfuehren.Rechnungen.{
  IsDistinctTables, Rechnungen, bestellungen_zusammenfuehren-IsValid,
}
use smolokellner.Rechnung.Auswahl.Zustand.{IsValid}

-- A child that the observer reports: its key and its table.
pub record Kind (Text : Type 0) : Type 0 where
  pub key : Text
  pub tischnummer : Text

module _ {Text : Type 0} where
  abbrev pub keys : List (Kind Text) → List Text
  keys [] = []
  keys (kind ∷ kinder) = kind.key ∷ keys kinder

  length-keys : (kinder : List (Kind Text)) → length (keys kinder) ≡ length kinder
  length-keys [] = refl
  length-keys (kind ∷ kinder) = ap suc (length-keys kinder)

module _ {Text : Type 0} ⦃eq : Equal Text⦄ where
  open eq use {same, same_refl, eq_of_same}

  -- The tables that the children name.
  unfoldable pub merke_alle : List (Kind Text) → List (Text × List Text) → List (Text × List Text)
  merke_alle [] tische = tische
  merke_alle (kind ∷ kinder) tische =
      merke_alle kinder (merke_tisch kind.tischnummer kind.key tische)

  All-merke_tisch :
      (P : Text → Type 0) (tisch id : Text) (tische : List (Text × List Text))
      → P tisch
      → All (λ entry. P entry.0) tische
      → All (λ entry. P entry.0) (merke_tisch tisch id tische)
  unfolding merke_tisch
  All-merke_tisch P tisch id [] own h = (own, tt)
  All-merke_tisch P tisch id ((t, ids) ∷ rest) own h = elim (Bool-cases (same t tisch)) [
    | inl e ↦ rw (e) h
    | inr e ↦ rw (e) (h.0, All-merke_tisch P tisch id rest own h.1)
  ]

  merke_tisch-IsDistinctTables :
      (tisch id : Text) (tische : List (Text × List Text))
      → IsDistinctTables tische
      → IsDistinctTables (merke_tisch tisch id tische)
  unfolding merke_tisch IsDistinctTables
  merke_tisch-IsDistinctTables tisch id [] h = (tt, tt)
  merke_tisch-IsDistinctTables tisch id ((t, ids) ∷ rest) h = elim (Bool-cases (same t tisch)) [
    | inl e ↦ rw (e) h
    | inr e ↦ rw (e) (
      All-merke_tisch (λ x. x ≢ t) tisch id rest
          (λ other. cc (e, ap (λ x. same t x) other, same_refl t)) h.0,
      merke_tisch-IsDistinctTables tisch id rest h.1,
    )
  ]

  All-merke_alle :
      (P : Text → Type 0) (kinder : List (Kind Text)) (tische : List (Text × List Text))
      → All (λ kind. P kind.tischnummer) kinder
      → All (λ entry. P entry.0) tische
      → All (λ entry. P entry.0) (merke_alle kinder tische)
  unfolding merke_alle
  All-merke_alle P [] tische own h = h
  All-merke_alle P (kind ∷ kinder) tische own h =
      All-merke_alle P kinder (merke_tisch kind.tischnummer kind.key tische) own.1
        (All-merke_tisch P kind.tischnummer kind.key tische own.0 h)

  merke_alle-IsDistinctTables :
      (kinder : List (Kind Text)) (tische : List (Text × List Text))
      → IsDistinctTables tische
      → IsDistinctTables (merke_alle kinder tische)
  unfolding merke_alle
  merke_alle-IsDistinctTables [] tische h = h
  merke_alle-IsDistinctTables (kind ∷ kinder) tische h =
      merke_alle-IsDistinctTables kinder _
        (merke_tisch-IsDistinctTables kind.tischnummer kind.key tische h)

module _ {Text Preis : Type 0} ⦃eq : Equal Text⦄ where
  open eq use {same, same_refl, eq_of_same}

  -- The screen once the observer has reported these finished orders.
  unfoldable pub gemeldet :
      List (Kind Text) → FertiggestelltVc Text Preis → FertiggestelltVc Text Preis
  gemeldet [] vc = vc
  gemeldet (kind ∷ kinder) vc = gemeldet kinder (neue_bestellung true kind.key kind.tischnummer vc)

  -- The variables' first values; `tischnummerBezahlen` is the empty string.
  abbrev pub frisch : Text → FertiggestelltVc Text Preis
  frisch leerer_text = record {
    bestellungen = [];
    bestellung_ids = [];
    tischnummer_ids = [];
    bestellungen_fertig = [];
    bestellungen_bezahlen = [];
    tischnummer_bezahlen = leerer_text;
    true_section = 0;
  }

  -- The orders that the database has for the children, each of the child's table.
  unfoldable pub Passend :
      Inhalt Text Preis → Text → List (Kind Text) → List (KellnerTvSection Text Preis) → Type 0
  Passend inhalt leerer_text [] [] = Unit
  Passend inhalt leerer_text (kind ∷ kinder) (b ∷ bs) =
      (inhalt.section_of kind.key ≡ some b)
      × (b.tischnummer ≡ kind.tischnummer)
      × (kind.tischnummer ≢ leerer_text)
      × IsOrder b
      × Passend inhalt leerer_text kinder bs
  Passend inhalt leerer_text _ _ = ⊥

  gemeldet_lem :
      (kinder : List (Kind Text)) (vc : FertiggestelltVc Text Preis)
      → gemeldet kinder vc ≡ record vc {
        bestellung_ids = vc.bestellung_ids ++ keys kinder;
        tischnummer_ids = merke_alle kinder vc.tischnummer_ids;
      }
  unfolding gemeldet neue_bestellung merke_alle
  gemeldet_lem [] vc =
      ap (λ ids. record vc { bestellung_ids = ids }) (sym (append-nil vc.bestellung_ids))
  gemeldet_lem (kind ∷ kinder) vc =
      gemeldet_lem kinder (neue_bestellung true kind.key kind.tischnummer vc)
      ∙ ap
          (λ ids. record vc {
            bestellung_ids = ids;
            tischnummer_ids =
                merke_alle kinder (merke_tisch kind.tischnummer kind.key vc.tischnummer_ids);
          })
          (append_assoc vc.bestellung_ids (kind.key ∷ []) (keys kinder))

  own-order :
      (tisch : Text) (b : KellnerTvSection Text Preis) (bs : List (KellnerTvSection Text Preis))
      → b.tischnummer ≡ tisch
      → 0 < length (of_tisch tisch (b ∷ bs))
  unfolding of_tisch
  own-order tisch b bs table = rw (table) (rw (same_refl tisch) (omega arith))

  later-order :
      (tisch : Text) (b : KellnerTvSection Text Preis) (bs : List (KellnerTvSection Text Preis))
      → 0 < length (of_tisch tisch bs)
      → 0 < length (of_tisch tisch (b ∷ bs))
  unfolding of_tisch
  later-order tisch b bs h = elim (Bool-cases (same b.tischnummer tisch)) [
    | inl e ↦ rw (e) (omega arith)
    | inr e ↦ rw (e) h
  ]

  Passend-facts :
      (inhalt : Inhalt Text Preis) (leerer_text : Text) (kinder : List (Kind Text))
      → (bs : List (KellnerTvSection Text Preis)) → Passend inhalt leerer_text kinder bs
      → Delivers inhalt (keys kinder) bs
        × All IsOrder bs
        × All (λ kind. kind.tischnummer ≢ leerer_text) kinder
        × All (λ kind. 0 < length (of_tisch kind.tischnummer bs)) kinder
  unfolding Passend Delivers of_tisch
  Passend-facts inhalt leerer_text [] [] h = (tt, tt, tt, tt)
  Passend-facts inhalt leerer_text (kind ∷ kinder) (b ∷ bs) (at, table, other, order, h) =
      let (delivers, orders, others, has) = Passend-facts inhalt leerer_text kinder bs h in
      (
        (at, delivers),
        (order, orders),
        (other, others),
        (
          own-order kind.tischnummer b bs table,
          All-map kinder (λ k more. later-order k.tischnummer b bs more) has,
        ),
      )
  Passend-facts inhalt leerer_text [] (b ∷ bs) h = elim h [ ]
  Passend-facts inhalt leerer_text (kind ∷ kinder) [] h = elim h [ ]

  -- A screen that has just opened, to which the observer reports one child or more that are finished
  -- orders, none for the table named by the empty string; the database has an order for each child,
  -- with the table that the child names and with arrays that fit together, and none beside them.
  -- Once it has delivered them all, the bills are those of the tables that the children name, one
  -- each, with all the orders of the table, and the screen is valid.
  pub gemeldet-IsValid :
      (inhalt : Inhalt Text Preis) (leerer_text : Text) (kinder : List (Kind Text))
      → (bs : List (KellnerTvSection Text Preis)) → 0 < length kinder
      → inhalt.zahl ≡ length kinder
      → Passend inhalt leerer_text kinder bs
      → (vc : FertiggestelltVc Text Preis) × (bestellung_geladen inhalt
            (gemeldet kinder (frisch leerer_text))
          ≡ some vc)
        × Rechnungen bs (merke_alle kinder []) vc.bestellungen_fertig
        × IsValid vc
  unfolding IsDistinctTables
  gemeldet-IsValid inhalt leerer_text kinder bs some_kind zahl h =
      let (delivers, orders, others, has) = Passend-facts inhalt leerer_text kinder bs h in
      let (vc, done, bills, valid) =
        bestellungen_zusammenfuehren-IsValid (record loaded { bestellungen = bs })
          (record {
            orders = orders;
            tables = merke_alle-IsDistinctTables kinder [] tt;
            has = All-merke_alle (λ t. 0 < length (of_tisch t bs)) kinder [] has tt;
            other = All-merke_alle (λ t. t ≢ leerer_text) kinder [] others tt;
            no_bills = refl;
            nothing = refl;
          }) in
      (
        vc,
        ap (λ s. bestellung_geladen inhalt s) (gemeldet_lem kinder (frisch leerer_text))
            ∙ bestellung_geladen-all inhalt bs loaded refl (omega (arith, length-keys kinder))
                (zahl ∙ sym (length-keys kinder)) delivers
            ∙ done,
        bills,
        valid,
      )
    where
      loaded : FertiggestelltVc Text Preis
      loaded = record (frisch leerer_text) {
        bestellung_ids = keys kinder;
        tischnummer_ids = merke_alle kinder [];
      }
