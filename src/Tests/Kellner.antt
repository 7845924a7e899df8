-- ===== src/Tests/Kellner.antt =====
-- Runs of the waiter's other screens, with a database that is a function from places to values, and
-- the theorems on them. Texts and times are numbers here, and the empty string is 0.
use smolokellner.Base.{
  ℕ, ◌+◌, ◌*◌, ◌≤◌, ◌≡◌, ◌≢◌, refl, sym, ap, ap₂, ◌∙◌, arith, Bool, true, false, ◌&&◌,
}
use smolokellner.Base.{
  Option, none, some, List, [], ◌∷◌, ◌++◌, pos, get_elem?, ltb, ◌==◌, if◌then◌else◌,
}
use mathlib.Core.Option.{map, some-injective}
use smolokellner.Rechnung.Daten.{Equal, ◌>>=◌, KellnerTvSection}
use smolokellner.Rechnung.Auswahl.Zellen.{differ}
use smolokellner.Tests.Rechnung.{number_texts, bier}
use smolokellner.Kellner.Datenbank.{Datenbank}
use smolokellner.Kellner.Status.{Status, versendet, angenommen, fertig, Pfad, information_status}
use smolokellner.Kellner.Status.{
  information_tischnummer, user_status, user_tischnummer, Wert, vorgang, tisch,
}
use smolokellner.Kellner.Status.{neue, angenommene, annehmen, remove_bestellung, remove_bestellung2}
use smolokellner.Kellner.Status.Verlauf.{Einig, Schritt, Folge, here, next, accept, zuletzt}
use smolokellner.Kellner.Status.Verlauf.{Folge-Einig}
use smolokellner.Kellner.Umbuchen.{KellnerVc, keines, problem_wischen, umbuchen_wischen, eingeben}
use smolokellner.Kellner.Umbuchen.{umbuchen_senden, problem_abbrechen, gesten}
use smolokellner.Kellner.Umbuchen.Falsch.{umbuchen_lem}
use smolokellner.Kellner.Problem.{VolleSection, view_problem_abschicken}
use smolokellner.Kellner.Problem.Bericht.{
  Posten, Rubrik, gruppen_bericht, bericht, view_problem_abschicken_lem,
}
use smolokellner.Kellner.Ampel.{Regel, rot, gelb, rot2, gelb2, Zahlen, update_ampel, loadampel}
use smolokellner.Kellner.Ampel.{loadampel2, farbe, roetlich, gruen}
use smolokellner.Kellner.Ampel.Grenzen.{update_ampel-loadampel}
use smolokellner.Kellner.Passwort.{Auth, PasswortVc, erfolgreich, pin_ungueltig, speichern}
use smolokellner.Kellner.Passwort.Altes.{speichern_lem}

-- A database that keeps a value for each place.
abbrev pub function_db : {P W : Type 0} ⦃eq : Equal P⦄ → Datenbank P W (P → Option W)
function_db ⦃eq⦄ = record {
  get = λ s p. s p;
  update_child = λ s p w q. if eq.same p q then some w else s q;
  get_same = λ s p w. rw (eq.same_refl p) refl;
  get_other = λ s p q w apart. rw (differ p q apart) refl;
}

abbrev same_place : Pfad ℕ → Pfad ℕ → Bool
same_place (information_status a b) (information_status c d) = a == c && b == d
same_place (information_tischnummer a b) (information_tischnummer c d) = a == c && b == d
same_place (user_status a b) (user_status c d) = a == c && b == d
same_place (user_tischnummer a b) (user_tischnummer c d) = a == c && b == d
same_place _ _ = false

both : (a b c d : ℕ) → (a == c && b == d) ≡ true → (a ≡ c) × (b ≡ d)
both a b c d h = (ground arith, ground arith)

itself : (a b : ℕ) → (a == a && b == b) ≡ true
itself a b = ground arith

place_refl : (p : Pfad ℕ) → same_place p p ≡ true
place_refl (information_status a b) = itself a b
place_refl (information_tischnummer a b) = itself a b
place_refl (user_status a b) = itself a b
place_refl (user_tischnummer a b) = itself a b

place_eq : (p q : Pfad ℕ) → same_place p q ≡ true → p ≡ q
place_eq (information_status a b) (information_status c d) h =
    ap₂ information_status (both a b c d h).0 (both a b c d h).1
place_eq (information_tischnummer a b) (information_tischnummer c d) h =
    ap₂ information_tischnummer (both a b c d h).0 (both a b c d h).1
place_eq (user_status a b) (user_status c d) h =
    ap₂ user_status (both a b c d h).0 (both a b c d h).1
place_eq (user_tischnummer a b) (user_tischnummer c d) h =
    ap₂ user_tischnummer (both a b c d h).0 (both a b c d h).1
place_eq (information_status _ _) (information_tischnummer _ _) h = cc
place_eq (information_status _ _) (user_status _ _) h = cc
place_eq (information_status _ _) (user_tischnummer _ _) h = cc
place_eq (information_tischnummer _ _) (information_status _ _) h = cc
place_eq (information_tischnummer _ _) (user_status _ _) h = cc
place_eq (information_tischnummer _ _) (user_tischnummer _ _) h = cc
place_eq (user_status _ _) (information_status _ _) h = cc
place_eq (user_status _ _) (information_tischnummer _ _) h = cc
place_eq (user_status _ _) (user_tischnummer _ _) h = cc
place_eq (user_tischnummer _ _) (information_status _ _) h = cc
place_eq (user_tischnummer _ _) (information_tischnummer _ _) h = cc
place_eq (user_tischnummer _ _) (user_status _ _) h = cc

instance abbrev places : Equal (Pfad ℕ)
places = record { same = same_place; same_refl = place_refl; eq_of_same = place_eq }

abbrev Stand : Type 0
Stand = Pfad ℕ → Option (Wert ℕ)

instance abbrev orders_db : Datenbank (Pfad ℕ) (Wert ℕ) Stand
orders_db = function_db

-- Order 3 of bar 1 and waiter 2, sent, accepted and finished.
abbrev setz : Pfad ℕ → Wert ℕ → Stand → Stand
setz p w s q = if same_place p q then some w else s q

abbrev gesendet : Stand
gesendet = setz (information_status 1 3) (vorgang versendet) (
    setz (user_status 2 3) (vorgang versendet) (
      setz (information_tischnummer 1 3) (tisch 7)
        (setz (information_tischnummer 1 10) (tisch 5) (λ q. none))))

abbrev nach_annahme : Status → Stand → Stand
nach_annahme st s =
    setz (user_status 2 3) (vorgang st) (setz (information_status 1 3) (vorgang st) s)

first_step : Schritt {Text = ℕ} {Stand = Stand} 1 2 gesendet (nach_annahme angenommen gesendet)
unfolding annehmen remove_bestellung
first_step = accept neue (4 ∷ 3 ∷ []) 1 3 refl refl

abbrev zubereitet : Stand
zubereitet = nach_annahme fertig (nach_annahme angenommen gesendet)

second_step : Schritt {Text = ℕ} {Stand = Stand} 1 2 (nach_annahme angenommen gesendet) zubereitet
unfolding annehmen remove_bestellung2
second_step = accept angenommene (3 ∷ []) 0 3 refl refl

-- Another device still lists the order as a new one.
stale_step : Schritt {Text = ℕ} {Stand = Stand} 1 2 zubereitet (nach_annahme angenommen zubereitet)
unfolding annehmen remove_bestellung
stale_step = accept neue (3 ∷ []) 0 3 refl refl

all_steps : Folge {Text = ℕ} {Stand = Stand} 1 2 gesendet (nach_annahme angenommen zubereitet)
all_steps = next (next (next here first_step) second_step) stale_step

gesendet-Einig : Einig {Text = ℕ} {Stand = Stand} 1 2 3 versendet gesendet
gesendet-Einig = record { in_bestellungen = refl; in_user = refl }

Folge-Einig_example :
    Einig {Text = ℕ} {Stand = Stand} 1 2 3
      (zuletzt 3 all_steps versendet)
      (nach_annahme angenommen zubereitet)
Folge-Einig_example = Folge-Einig all_steps 3 versendet gesendet-Einig

-- The waiter reports a problem of order 10 and drops it, and then moves order 3 to table 9.
abbrev essen : KellnerTvSection ℕ ℕ
essen = record bier { bestellung_id = 3; tischnummer = 7 }

abbrev vor_umbuchen : KellnerVc ℕ ℕ Stand
vor_umbuchen = record {
  barname = 1;
  bestellungen = bier ∷ essen ∷ [];
  problem_section = 0;
  problem_row = 0;
  view_bestellung_id = 0;
  umbuchen_textfield = 0;
  blatt = keines;
  datenbank = gesendet;
}

umbuchen_lem_example :
    (s : Stand) × (map
        (λ v. v.datenbank)
        (gesten 0
          (problem_wischen 0 0 ∷ (problem_abbrechen ∷ [])
            ++ umbuchen_wischen 1 0 ∷ eingeben 9 ∷ umbuchen_senden ∷ [])
          vor_umbuchen)
      ≡ some s)
    × (s (information_tischnummer 1 10) ≡ some (tisch 9))
    × (s (information_tischnummer 1 3) ≡ gesendet (information_tischnummer 1 3))
    × (s (user_tischnummer 2 10) ≡ gesendet (user_tischnummer 2 10))
umbuchen_lem_example =
    umbuchen_lem 0 vor_umbuchen 0 0 1 0 bier (problem_abbrechen ∷ []) 9 refl (tt, tt) (λ h. cc) 2 3
      (λ h. cc)

-- A category with two subcategories of two rows and of three.
abbrev posten : ℕ → Posten ℕ ℕ
posten n = record { name = n; menge = pos 1; preis = n; kommentar = 0 }

abbrev gericht : Rubrik ℕ ℕ
gericht = record {
  kategorie = 100;
  gruppen =
      record { unterkategorie = 20; posten = posten 1 ∷ posten 2 ∷ [] }
      ∷ record { unterkategorie = 21; posten = posten 3 ∷ posten 4 ∷ posten 5 ∷ [] }
      ∷ [];
}

abbrev mit_kommentar : VolleSection ℕ ℕ ℕ
mit_kommentar = record {
  section = record {
    bestellung_id = 3;
    tischnummer = 7;
    kategorie = 100 ∷ [];
    unterkategorie = (20 ∷ 21 ∷ []) ∷ [];
    items = ((1 ∷ 2 ∷ []) ∷ (3 ∷ 4 ∷ 5 ∷ []) ∷ []) ∷ [];
    preis = ((1 ∷ 2 ∷ []) ∷ (3 ∷ 4 ∷ 5 ∷ []) ∷ []) ∷ [];
    extras_preis = [];
    menge = ((pos 1 ∷ pos 1 ∷ []) ∷ (pos 1 ∷ pos 1 ∷ pos 1 ∷ []) ∷ []) ∷ [];
    items_id = [];
  };
  from_user_id = 50;
  time_stamp = 60;
  kommentar = ((0 ∷ 0 ∷ []) ∷ (0 ∷ 0 ∷ 0 ∷ []) ∷ []) ∷ [];
}

view_problem_abschicken_lem_example : view_problem_abschicken 0 8 (mit_kommentar ∷ []) 0 ≡ (
    bericht (gericht ∷ []) >>= λ zeilen. some (
      some record {
        information = record {
          problemtext = 8;
          bestellung_id = 3;
          tischnummer = 7;
          from_user_id = 50;
          time_stamp = 60;
        };
        zeilen = zeilen;
      }))
view_problem_abschicken_lem_example =
    view_problem_abschicken_lem 0 8 (mit_kommentar ∷ []) 0 mit_kommentar (gericht ∷ []) (λ h. cc)
      refl
      (record {
        kategorien = refl;
        unterkategorien = refl;
        items = refl;
        mengen = refl;
        preise = refl;
        kommentare = refl;
      })
      ((((λ h. cc), tt), (tt, tt)), tt)

-- The fifth item is not in the report.
four_rows :
    map (λ zs. smolokellner.Base.map (λ z. z.name) zs) (bericht (gericht ∷ []))
    ≡ some (1 ∷ 2 ∷ 3 ∷ 4 ∷ [])
unfolding bericht gruppen_bericht
four_rows = refl

abbrev same_rule : Regel → Regel → Bool
same_rule rot rot = true
same_rule gelb gelb = true
same_rule rot2 rot2 = true
same_rule gelb2 gelb2 = true
same_rule _ _ = false

rule_refl : (r : Regel) → same_rule r r ≡ true
rule_refl rot = refl
rule_refl gelb = refl
rule_refl rot2 = refl
rule_refl gelb2 = refl

rule_eq : (r q : Regel) → same_rule r q ≡ true → r ≡ q
rule_eq rot rot h = refl
rule_eq gelb gelb h = refl
rule_eq rot2 rot2 h = refl
rule_eq gelb2 gelb2 h = refl
rule_eq rot gelb h = cc
rule_eq rot rot2 h = cc
rule_eq rot gelb2 h = cc
rule_eq gelb rot h = cc
rule_eq gelb rot2 h = cc
rule_eq gelb gelb2 h = cc
rule_eq rot2 rot h = cc
rule_eq rot2 gelb h = cc
rule_eq rot2 gelb2 h = cc
rule_eq gelb2 rot h = cc
rule_eq gelb2 gelb h = cc
rule_eq gelb2 rot2 h = cc

instance abbrev rules : Equal Regel
rules = record { same = same_rule; same_refl = rule_refl; eq_of_same = rule_eq }

instance abbrev rules_db : Datenbank Regel ℕ (Regel → Option ℕ)
rules_db = function_db

-- A text is the number that it reads as.
abbrev numbers : Zahlen ℕ ℕ
numbers = record {
  of_text = some;
  mal = λ a b. a * b;
  kleiner = ltb;
  n60 = 60;
  n3000 = 3000;
  n6000 = 6000;
}

-- Yellow after 5 minutes, red after 10; of the accepted orders red after 20 and yellow after 15. New
-- orders then turn red after 15.
update_ampel-loadampel_example :
    (s' : Regel → Option ℕ) × (update_ampel numbers 0 5 10 20 15 (λ r. none) ≡ some s')
    × (loadampel numbers 0 (0, 0) s' ≡ (15 * 60, 5 * 60))
    × (loadampel2 numbers 0 (0, 0) s' ≡ (6000, 3000))
    × (farbe numbers (loadampel numbers 0 (0, 0) s') 901 gruen ≡ roetlich)
update_ampel-loadampel_example =
    update_ampel-loadampel numbers 0 5 10 20 15 5 10 20 15 (λ r. none) (0, 0) (0, 0) (λ h. cc)
      (λ h. cc) (λ h. cc) (λ h. cc) refl refl refl refl 901 gruen refl

set_password : (pw k : ℕ) → some pw ≡ some k → (pw == k) ≡ true
set_password pw k h = ground (arith, some-injective pw k h)

unset_password : (pw other k : ℕ) → some pw ≡ some k → other ≢ pw → (other == k) ≡ false
unset_password pw other k h apart = ground (arith, some-injective pw k h, apart)

-- An account is its password.
instance abbrev accounts : Auth ℕ ℕ
accounts = record {
  email = λ k. some 1;
  fetch_providers = λ e k. some (some (77 ∷ []));
  update_password = λ pw k. some pw;
  reauthenticate = λ e pw k. pw == k;
  email_stays = λ pw k k' h. refl;
  new_accepted = λ pw k k' e h there. set_password pw k' h;
  others_refused = λ pw other k k' e h apart. unset_password pw other k' h apart;
}

-- The password is 4, and 9 is typed in its place; the pin is not loaded yet.
abbrev eingabe : PasswortVc ℕ
eingabe = record { altes_pw = 9; neues_pw1 = 6; neues_pw2 = 6; pin = 0; pin_var = 0 }

speichern_lem_example :
    speichern {Konto = ℕ} 0 77 eingabe (some 4)
    ≡ some (some 6, if eingabe.pin == 0 then erfolgreich else pin_ungueltig)
speichern_lem_example = speichern_lem 0 77 eingabe 4 6 1 [] refl (λ h. cc) refl refl refl (λ h. cc)
