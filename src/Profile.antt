-- ===== src/Profile.antt =====
-- frontend/app/client/profile/page.tsx: the change of the backup email and of the password. A
-- handler runs on the state of the last rendering; its call of the server ends with the outcome
-- that it is given.
pub mod Password
use ikarin_bank.Prelude.{
  ℕ, Bool, true, false, not, List, [], ◌∷◌, ◌++◌, Option, none, some, ltb, if◌then◌else◌, length,
}
use ikarin_bank.Text.{Text, codes, text_eq}
use ikarin_bank.Transfer.{text_or}
use ikarin_bank.Users.{Outcome, ok, not_ok, threw}

-- The body of the call that changes the password.
pub record PasswordChange : Type 0 where
  pub current_password : Text
  pub new_password : Text

-- The state, the bodies that were sent, and whether the timer that logs the user out runs.
pub record Profile : Type 0 where
  pub backup_email : Text
  pub backup_loading : Bool
  pub backup_success : Text
  pub backup_error : Text
  pub current_password : Text
  pub new_password : Text
  pub confirm_password : Text
  pub pass_loading : Bool
  pub pass_success : Text
  pub pass_error : Text
  pub show_pass_confirm : Bool
  pub backups : List Text
  pub changes : List PasswordChange
  pub logging_out : Bool

-- The state of the first rendering.
unfoldable pub initial : Profile
initial = record {
  backup_email = [];
  backup_loading = false;
  backup_success = [];
  backup_error = [];
  current_password = [];
  new_password = [];
  confirm_password = [];
  pass_loading = false;
  pass_success = [];
  pass_error = [];
  show_pass_confirm = false;
  backups = [];
  changes = [];
  logging_out = false;
}

abbrev pub backup_ended : Outcome Unit → Profile → Profile
backup_ended (ok _) p = record p {
  backup_success =
      codes
        "Backup email updated successfully! Please refresh or log back in to see changes globally.";
  backup_email = [];
}
backup_ended (not_ok detail) p = record p {
  backup_error = text_or detail (codes "Failed to update backup email");
}
backup_ended (threw message) p = record p { backup_error = message }

-- `handleBackupUpdate`
unfoldable pub handle_backup_update : Outcome Unit → Profile → Profile
handle_backup_update outcome p =
    let updating = record p {
      backup_error = [];
      backup_success = [];
      backup_loading = true;
      backups = p.backups ++ p.backup_email ∷ [];
    } in
    record (backup_ended outcome updating) { backup_loading = false }

-- `handlePasswordSubmit`
unfoldable pub handle_password_submit : Profile → Profile
handle_password_submit p =
    let cleared = record p { pass_error = []; pass_success = [] } in
    if not (text_eq p.new_password p.confirm_password)
    then record cleared { pass_error = codes "New passwords do not match" }
    else if ltb (length p.new_password) 8
    then record cleared { pass_error = codes "New password must be at least 8 characters long" }
    else record cleared { show_pass_confirm = true }

abbrev pub change_ended : Outcome Unit → Profile → Profile
change_ended (ok _) p = record p {
  pass_success = codes "Password updated successfully! Logging you out in 3 seconds...";
  current_password = [];
  new_password = [];
  confirm_password = [];
  logging_out = true;
}
change_ended (not_ok detail) p = record p {
  pass_error = text_or detail (codes "Failed to update password");
}
change_ended (threw message) p = record p { pass_error = message }

abbrev pub change_of : Profile → PasswordChange
change_of p = record { current_password = p.current_password; new_password = p.new_password }

-- `handlePasswordUpdate`
unfoldable pub handle_password_update : Outcome Unit → Profile → Profile
handle_password_update outcome p =
    let updating = record p {
      pass_loading = true;
      show_pass_confirm = false;
      changes = p.changes ++ change_of p ∷ [];
    } in
    record (change_ended outcome updating) { pass_loading = false }

-- The fields, and the button that closes the question.
unfoldable pub set_passwords : Text → Text → Text → Profile → Profile
set_passwords current new confirm p = record p {
  current_password = current;
  new_password = new;
  confirm_password = confirm;
}

unfoldable pub set_backup_email : Text → Profile → Profile
set_backup_email s p = record p { backup_email = s }

unfoldable pub close_confirm : Profile → Profile
close_confirm p = record p { show_pass_confirm = false }
