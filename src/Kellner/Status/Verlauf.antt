-- ===== src/Kellner/Status/Verlauf.antt =====
-- How the state of an order goes on, over every sequence of acceptances.
use smolokellner.Base.{ℕ, ◌≡◌, ◌≢◌, refl, sym, ap, subst, ◌∙◌, inl, inr}
use smolokellner.Base.{false, some, List, get_elem?, if◌then◌else◌, Bool-cases}
use mathlib.Core.Option.{some-injective}
use smolokellner.Rechnung.Daten.{Equal}
use mathlib.Core.Bool.{true≢false}
use smolokellner.Kellner.Datenbank.{Datenbank}
use smolokellner.Kellner.Status.{Status, angenommen, fertig, abrechnen, Pfad, Wert}
use smolokellner.Kellner.Status.{
  information_status, information_tischnummer, user_status, user_tischnummer, vorgang, Ansicht,
  neue, angenommene, fertige,
}
use smolokellner.Kellner.Status.{
  nimmt_auf, remove_bestellung, remove_bestellung2, remove_bestellung3, annehmen,
}

-- The state that a screen gives to the orders that it accepts.
abbrev pub folgt : Ansicht → Status
folgt neue = angenommen
folgt angenommene = fertig
folgt fertige = abrechnen

-- The order that a place belongs to.
abbrev pub order_of : {Text : Type 0} → Pfad Text → Text
order_of (information_status b i) = i
order_of (information_tischnummer b i) = i
order_of (user_status k i) = i
order_of (user_tischnummer k i) = i

module _ {Text Stand : Type 0} ⦃db : Datenbank (Pfad Text) (Wert Text) Stand⦄ where
  open db use {get, update_child, get_same, get_other}

  abbrev setze : Status → Text → Text → Text → Stand → Stand
  setze st barname kellner_id id s =
      update_child (update_child s (information_status barname id) (vorgang st))
        (user_status kellner_id id) (vorgang st)

  annehmen_lem :
      (a : Ansicht) (barname kellner_id : Text) (ids : List Text) (section : ℕ) (id : Text)
      → (s : Stand) → get_elem? ids section ≡ some id
      → annehmen a barname kellner_id ids section s ≡ some (setze (folgt a) barname kellner_id id s)
  unfolding annehmen remove_bestellung remove_bestellung2 remove_bestellung3
  annehmen_lem neue barname kellner_id ids section id s h = rw (h) refl
  annehmen_lem angenommene barname kellner_id ids section id s h = rw (h) refl
  annehmen_lem fertige barname kellner_id ids section id s h = rw (h) refl

  -- Both places of an order tell this state.
  pub record Einig (barname kellner_id id : Text) (st : Status) (s : Stand) : Type 0 where
    pub in_bestellungen : get s (information_status barname id) ≡ some (vorgang st)
    pub in_user : get s (user_status kellner_id id) ≡ some (vorgang st)

  setze-same :
      (barname kellner_id id : Text) (st : Status) (s : Stand)
      → Einig barname kellner_id id st (setze st barname kellner_id id s)
  setze-same barname kellner_id id st s = record {
    in_bestellungen =
        get_other _ (user_status kellner_id id) (information_status barname id) (vorgang st)
          (λ h. cc)
        ∙ get_same s (information_status barname id) (vorgang st);
    in_user = get_same _ (user_status kellner_id id) (vorgang st);
  }

  setze-other :
      (barname kellner_id id other : Text) (st : Status) (s : Stand) (p : Pfad Text)
      → id ≢ other
      → order_of p ≡ other
      → get (setze st barname kellner_id id s) p ≡ get s p
  setze-other barname kellner_id id other st s p apart own =
      get_other _ (user_status kellner_id id) p (vorgang st) (λ h. apart (ap order_of h ∙ own))
      ∙ get_other s (information_status barname id) p (vorgang st)
          (λ h. apart (ap order_of h ∙ own))

  -- An acceptance on a screen of the order in one of its sections. The list of the screen's orders
  -- may be any, also one that was read long before: the check of the order's state at this moment
  -- is commented out in `removeBestellung`.
  pub data Schritt (barname kellner_id : Text) (s s' : Stand) : Type 0 where
    accept :
        (a : Ansicht) (ids : List Text) (section : ℕ) (id : Text)
        → get_elem? ids section ≡ some id
        → annehmen a barname kellner_id ids section s ≡ some s'
        → Schritt barname kellner_id s s'

  pub data Folge (barname kellner_id : Text) (s : Stand) : Stand → Type 0 where
    here : Folge barname kellner_id s s
    next :
        {s' s'' : Stand}
        → Folge barname kellner_id s s'
        → Schritt barname kellner_id s' s''
        → Folge barname kellner_id s s''

module _ {Text Stand : Type 0} ⦃db : Datenbank (Pfad Text) (Wert Text) Stand⦄
    ⦃eq : Equal Text⦄ where
  open db use {get}
  open eq use {same, eq_of_same, same_refl}

  abbrev gesetzt :
      {barname kellner_id : Text} {s s' : Stand}
      → Text
      → Schritt barname kellner_id s s'
      → Status
      → Status
  gesetzt id (accept a ids section i _ _) st = if same i id then folgt a else st

  -- The state that the screen which accepted the order last gives to it, and `st` when none did.
  unfoldable pub zuletzt :
      {barname kellner_id : Text} {s s' : Stand}
      → Text
      → Folge barname kellner_id s s'
      → Status
      → Status
  zuletzt id here st = st
  zuletzt id (next f t) st = gesetzt id t (zuletzt id f st)

  -- A step writes the state that follows to the order that it accepts.
  accepted :
      {barname kellner_id : Text} {s s' : Stand}
      → (a : Ansicht) (ids : List Text) (section : ℕ) (i : Text) → get_elem? ids section ≡ some i
      → annehmen a barname kellner_id ids section s ≡ some s'
      → s' ≡ setze (folgt a) barname kellner_id i s
  accepted {barname} {kellner_id} {s} a ids section i pos done =
      some-injective _ _ (sym done ∙ annehmen_lem a barname kellner_id ids section i s pos)

  -- A step that accepts another order leaves this one alone.
  Schritt-other :
      {barname kellner_id : Text} {s s' : Stand} (i id : Text) (a : Ansicht) (st : Status)
      → same i id ≡ false
      → s' ≡ setze (folgt a) barname kellner_id i s
      → Einig barname kellner_id id st s
      → Einig barname kellner_id id st s'
  Schritt-other {barname} {kellner_id} {s} i id a st h is e =
      subst (λ t. Einig barname kellner_id id st t) (sym is)
        record {
          in_bestellungen =
              setze-other barname kellner_id i id (folgt a) s (information_status barname id) apart
                refl
              ∙ e.in_bestellungen;
          in_user =
              setze-other barname kellner_id i id (folgt a) s (user_status kellner_id id) apart refl
              ∙ e.in_user;
        }
    where
      apart : i ≢ id
      apart k = true≢false (sym (same_refl i) ∙ ap (same i) k ∙ h)

  Schritt-Einig :
      {barname kellner_id : Text} {s s' : Stand} (t : Schritt barname kellner_id s s')
      → (id : Text) (st : Status) → Einig barname kellner_id id st s
      → Einig barname kellner_id id (gesetzt id t st) s'
  Schritt-Einig {barname} {kellner_id} {s} {s'} (accept a ids section i at done) id st e =
      elim (Bool-cases (same i id)) [
        | inl h ↦ rw (h) (own (eq_of_same i id h))
        | inr h ↦ rw (h) (Schritt-other i id a st h written e)
      ]
    where
      written : s' ≡ setze (folgt a) barname kellner_id i s
      written = accepted a ids section i at done

      own : i ≡ id → Einig barname kellner_id id (folgt a) s'
      own k =
          subst (λ t. Einig barname kellner_id id (folgt a) t)
            (sym (subst (λ x. s' ≡ setze (folgt a) barname kellner_id x s) k written))
            (setze-same barname kellner_id id (folgt a) s)

  -- Whatever orders the screens accept in turn, of whatever lists, old ones included: when both
  -- places of an order tell one state before, both tell one state afterwards. It is the one that
  -- the screen which accepted the order last gives, "angenommen", "fertig" or "abrechnen", also
  -- where the order was further on already; and the state before, when no screen accepted it.
  pub Folge-Einig :
      {barname kellner_id : Text} {s s' : Stand} (f : Folge barname kellner_id s s')
      → (id : Text) (st : Status) → Einig barname kellner_id id st s
      → Einig barname kellner_id id (zuletzt id f st) s'
  unfolding zuletzt
  Folge-Einig here id st e = e
  Folge-Einig (next f t) id st e = Schritt-Einig t id (zuletzt id f st) (Folge-Einig f id st e)

-- No screen takes up an order again in the state that it gave it itself.
folgt-nimmt_auf : (a : Ansicht) → nimmt_auf a (folgt a) ≡ false
unfolding nimmt_auf
folgt-nimmt_auf neue = refl
folgt-nimmt_auf angenommene = refl
folgt-nimmt_auf fertige = refl
