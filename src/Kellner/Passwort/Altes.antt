-- ===== src/Kellner/Passwort/Altes.antt =====
-- What changing the password asks of the old password.
use smolokellner.Base.{true, Option, none, some, List, ◌∷◌, ◌≡◌, ◌≢◌, refl, ◌∙◌}
use smolokellner.Base.{Bool-cases, inl, inr, if◌then◌else◌}
use smolokellner.Rechnung.Daten.{Equal, ◌>>=◌}
use smolokellner.Rechnung.Auswahl.Zellen.{differ}
use smolokellner.Kellner.Passwort.{Auth, PasswortVc, Alert, erfolgreich, pin_ungueltig, nach_update}
use smolokellner.Kellner.Passwort.{mit_providern, mit_email, speichern_pw, speichern}

module _ {Text Konto : Type 0} ⦃auth : Auth Text Konto⦄ ⦃eq : Equal Text⦄
    (leer password : Text) where
  open auth use {email, fetch_providers, update_password, reauthenticate, email_stays}
  open auth use {new_accepted, others_refused}
  open eq use {same, same_refl}

  -- A user who logs in with a password asks for a new one, typed twice and not empty, and the
  -- service sets it. When the text in the field of the old password is not the new one, whatever it
  -- is, the account has the new password, and the alert tells of success when the typed pin is what
  -- `Pin` holds at that moment, and otherwise of a wrong pin.
  pub speichern_lem :
      (vc : PasswortVc Text) (k k' : Konto) (e : Text) (more : List Text)
      → vc.neues_pw2 ≡ vc.neues_pw1
      → vc.neues_pw1 ≢ leer
      → email k ≡ some e
      → fetch_providers e k ≡ some (some (password ∷ more))
      → update_password vc.neues_pw1 k ≡ some k'
      → vc.altes_pw ≢ vc.neues_pw1
      → speichern leer password vc (some k)
        ≡ some (some k', if same vc.pin vc.pin_var then erfolgreich else pin_ungueltig)
  unfolding speichern speichern_pw mit_email mit_providern nach_update
  speichern_lem vc k k' e more twice full address provider sets other = rw (twice) (
      rw (same_refl vc.neues_pw1) (
        rw (differ vc.neues_pw1 leer full) (
          rw (address) (
            rw (provider) (
              rw (same_refl password) (
                rw (sets) (
                  rw (email_stays vc.neues_pw1 k k' sets ∙ address)
                    (rw (others_refused vc.neues_pw1 vc.altes_pw k k' e sets other) pins))))))))
    where
      pins :
          (◌>>=◌ {A = Konto × Alert} {B = Option Konto × Alert}
            (if same vc.pin vc.pin_var then some (k', erfolgreich) else some (k', pin_ungueltig))
            λ r. some (some r.0, r.1))
          ≡ some (some k', if same vc.pin vc.pin_var then erfolgreich else pin_ungueltig)
      pins = elim (Bool-cases (same vc.pin vc.pin_var)) [
        | inl h ↦ rw (h) refl
        | inr h ↦ rw (h) refl
      ]

  -- When it is the new one, the app traps.
  pub speichern_trap :
      (vc : PasswortVc Text) (k k' : Konto) (e : Text) (more : List Text)
      → vc.neues_pw2 ≡ vc.neues_pw1
      → vc.neues_pw1 ≢ leer
      → email k ≡ some e
      → fetch_providers e k ≡ some (some (password ∷ more))
      → update_password vc.neues_pw1 k ≡ some k'
      → vc.altes_pw ≡ vc.neues_pw1
      → speichern leer password vc (some k) ≡ none
  unfolding speichern speichern_pw mit_email mit_providern nach_update
  speichern_trap vc k k' e more twice full address provider sets equal = rw (twice) (
      rw (same_refl vc.neues_pw1) (
        rw (differ vc.neues_pw1 leer full) (
          rw (address) (
            rw (provider) (
              rw (same_refl password) (
                rw (sets) (
                  rw (email_stays vc.neues_pw1 k k' sets ∙ address)
                    (rw (equal) (rw (accepted) refl)))))))))
    where
      accepted : reauthenticate e vc.neues_pw1 k' ≡ true
      accepted =
          new_accepted vc.neues_pw1 k k' e sets (email_stays vc.neues_pw1 k k' sets ∙ address)
