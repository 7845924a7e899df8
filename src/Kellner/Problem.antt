-- ===== src/Kellner/Problem.antt =====
-- The report of a problem with an order: `viewProblemAbschicken` of KellnerVC.swift.
pub mod Bericht
use smolokellner.Base.{ℕ, zero, suc, Option, none, some, List, [], ◌∷◌, ◌++◌, ℤ, get_elem?, length}
use smolokellner.Base.{if◌then◌else◌}
use smolokellner.Rechnung.Daten.{Equal, ◌>>=◌, index_of, KellnerTvSection}

-- An order with what the report reads of it besides.
pub record VolleSection (Text Preis Zeit : Type 0) : Type 0 where
  pub section : KellnerTvSection Text Preis
  pub from_user_id : Text
  pub time_stamp : Zeit
  pub kommentar : List (List (List Text))

-- What is written under "Information".
pub record Information (Text Zeit : Type 0) : Type 0 where
  pub problemtext : Text
  pub bestellung_id : Text
  pub tischnummer : Text
  pub from_user_id : Text
  pub time_stamp : Zeit

-- What one round of the innermost loop writes under "Bestellung": the three keys of the place, of
-- which `name` is also a value, and the other values.
pub record Zeile (Text Preis : Type 0) : Type 0 where
  pub kategorie : Text
  pub unterkategorie : Text
  pub name : Text
  pub menge : ℤ
  pub preis : Preis
  pub kommentar : Text

-- A message of the waiter, with its rows in the order in which they are written.
pub record Meldung (Text Preis Zeit : Type 0) : Type 0 where
  pub information : Information Text Zeit
  pub zeilen : List (Zeile Text Preis)

module _ {Text Preis : Type 0} where
  -- `for x in 0 ..< items.count`, from `x` on with that many rounds left.
  unfoldable pub zeilen_schleife :
      ℕ
      → ℕ
      → Text
      → Text
      → List Text
      → List ℤ
      → List Preis
      → List Text
      → Option (List (Zeile Text Preis))
  zeilen_schleife zero x kategorie unterkategorie item menge preis kommentar = some []
  zeilen_schleife (suc rounds) x kategorie unterkategorie item menge preis kommentar =
      get_elem? item x >>= λ n. get_elem? menge x >>= λ m. get_elem? preis x >>= λ p.
      get_elem? kommentar x >>= λ k.
      zeilen_schleife rounds (suc x) kategorie unterkategorie item menge preis kommentar >>= λ rest.
      some (
        record {
          kategorie = kategorie;
          unterkategorie = unterkategorie;
          name = n;
          menge = m;
          preis = p;
          kommentar = k;
        }
        ∷ rest)

module _ {Text Preis Zeit : Type 0} ⦃eq : Equal Text⦄ where
  open eq use {same}

  -- `for Unterkategorie in Unterkategorien`, with those that are left last.
  unfoldable pub unter_schleife :
      VolleSection Text Preis Zeit → ℕ → List Text → List Text → Option (List (Zeile Text Preis))
  unter_schleife b i unterkategorien [] = some []
  unter_schleife b i unterkategorien (u ∷ us) = index_of same u unterkategorien >>= λ k.
      get_elem? b.section.items i >>= λ items. get_elem? items k >>= λ item.
      get_elem? b.section.menge i >>= λ mengen. get_elem? mengen k >>= λ menge.
      get_elem? b.section.preis i >>= λ preise. get_elem? preise k >>= λ preis.
      get_elem? b.kommentar i >>= λ kommentare. get_elem? kommentare k >>= λ kommentar.
      get_elem? b.section.kategorie i >>= λ kategorie.
      zeilen_schleife (length items) 0 kategorie u item menge preis kommentar >>= λ zeilen.
      unter_schleife b i unterkategorien us >>= λ rest. some (zeilen ++ rest)

  -- `for i in 0..<Bestellung.Kategorie.count`, from `i` on with that many rounds left.
  unfoldable pub kategorie_schleife :
      VolleSection Text Preis Zeit → ℕ → ℕ → Option (List (Zeile Text Preis))
  kategorie_schleife b zero i = some []
  kategorie_schleife b (suc rounds) i = get_elem? b.section.unterkategorie i >>= λ unterkategorien.
      unter_schleife b i unterkategorien unterkategorien >>= λ zeilen.
      kategorie_schleife b rounds (suc i) >>= λ rest. some (zeilen ++ rest)

  -- The message that is sent, if any: an empty text only brings an alert.
  unfoldable pub view_problem_abschicken :
      (leer problemtext : Text)
      → List (VolleSection Text Preis Zeit)
      → ℕ
      → Option (Option (Meldung Text Preis Zeit))
  view_problem_abschicken leer problemtext bestellungen problem_section =
      if same problemtext leer
      then some none
      else (get_elem? bestellungen problem_section >>= λ b.
          kategorie_schleife b (length b.section.kategorie) 0 >>= λ zeilen. some (
            some record {
              information = record {
                problemtext = problemtext;
                bestellung_id = b.section.bestellung_id;
                tischnummer = b.section.tischnummer;
                from_user_id = b.from_user_id;
                time_stamp = b.time_stamp;
              };
              zeilen = zeilen;
            }))
