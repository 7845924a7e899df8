-- ===== src/Kellner/Passwort.antt =====
-- Changing the password: `speichernPW` of PasswortVC.swift, with the calls of the authentication
-- service in the order in which its callbacks make them.
pub mod Altes
use smolokellner.Base.{Bool, true, false, not, ◌&&◌, Option, none, some, List, ◌≡◌, ◌≢◌, get_elem?}
use smolokellner.Base.{if◌then◌else◌}
use smolokellner.Rechnung.Daten.{Equal, ◌>>=◌}

-- What the app uses of the service, which is not part of it. An error is `none`, or `false`.
pub record Auth (Text Konto : Type 0) : Type 0 where
  pub email : Konto → Option Text
  pub fetch_providers : Text → Konto → Option (Option (List Text))
  pub update_password : Text → Konto → Option Konto
  pub reauthenticate : Text → Text → Konto → Bool
  -- An account keeps its address, and its password is the one that was set last.
  pub email_stays : (pw : Text) (k k' : Konto) → update_password pw k ≡ some k' → email k' ≡ email k
  pub new_accepted :
      (pw : Text) (k k' : Konto) (e : Text)
      → update_password pw k ≡ some k'
      → email k' ≡ some e
      → reauthenticate e pw k' ≡ true
  pub others_refused :
      (pw other : Text) (k k' : Konto) (e : Text)
      → update_password pw k ≡ some k'
      → other ≢ pw
      → reauthenticate e other k' ≡ false

-- The alerts: an error of the service, and those of the app.
pub data Alert : Type 0 where
  fehler pin_ungueltig facebook email_ungueltig nicht_gleich kein_nutzer erfolgreich : Alert

-- The text fields, and the variable `Pin`.
pub record PasswortVc (Text : Type 0) : Type 0 where
  pub altes_pw : Text
  pub neues_pw1 : Text
  pub neues_pw2 : Text
  pub pin : Text
  pub pin_var : Text

module _ {Text : Type 0} where
  -- The value that `getPin` asks for arrives later.
  unfoldable pub pin_angekommen : Text → PasswortVc Text → PasswortVc Text
  pin_angekommen wert vc = record vc { pin_var = wert }

module _ {Text Konto : Type 0} ⦃auth : Auth Text Konto⦄ ⦃eq : Equal Text⦄
    (leer password : Text) where
  open auth use {email, fetch_providers, update_password, reauthenticate}
  open eq use {same}

  -- After the password was updated. Without an error, the code unwraps the error.
  unfoldable pub nach_update : PasswortVc Text → Konto → Option (Konto × Alert)
  nach_update vc k = email k >>= λ e.
      if reauthenticate e vc.altes_pw k
      then none
      else (if same vc.pin vc.pin_var then some (k, erfolgreich) else some (k, pin_ungueltig))

  -- The completion of `fetchProviders`.
  unfoldable pub mit_providern :
      PasswortVc Text → Konto → Option (Option (List Text)) → Option (Konto × Alert)
  mit_providern vc k none = some (k, fehler)
  mit_providern vc k (some none) = some (k, facebook)
  mit_providern vc k (some (some login_provider)) = get_elem? login_provider 0 >>= λ p.
      if same p password
      then elim (update_password vc.neues_pw1 k) [
        | none ↦ some (k, fehler)
        | some k' ↦ nach_update vc k'
      ]
      else some (k, facebook)

  unfoldable pub mit_email : PasswortVc Text → Konto → Option Text → Option (Konto × Alert)
  mit_email vc k none = some (k, email_ungueltig)
  mit_email vc k (some e) = mit_providern vc k (fetch_providers e k)

  -- The account afterwards and the alert that is shown; `none` is a trap.
  unfoldable pub speichern_pw : PasswortVc Text → Konto → Option (Konto × Alert)
  speichern_pw vc k =
      if same vc.neues_pw1 vc.neues_pw2
        && (not (same vc.neues_pw1 leer) && not (same vc.neues_pw2 leer))
      then mit_email vc k (email k)
      else some (k, nicht_gleich)

  -- Without a user.
  unfoldable pub speichern : PasswortVc Text → Option Konto → Option (Option Konto × Alert)
  speichern vc none = some (none, kein_nutzer)
  speichern vc (some k) = speichern_pw vc k >>= λ r. some (some r.0, r.1)
