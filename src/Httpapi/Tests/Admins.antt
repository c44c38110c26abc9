-- ===== src/Httpapi/Tests/Admins.antt =====
-- The handlers of internal/httpapi/admin.go at concrete requests.
use batch_managementof_cloud.Prelude.{arith, none, some, Option, false, pos, refl, true, ◌≡◌}
use batch_managementof_cloud.Store.Settings.Secrets.{secret_of}
use batch_managementof_cloud.Store.Users.{active_admin_count}
use batch_managementof_cloud.Httpapi.Admin.{absent, admin_update_user, UserChange}
use batch_managementof_cloud.Httpapi.Admin.LastAdmin.{HasAdmin, admin_update_user-HasAdmin}
use batch_managementof_cloud.Httpapi.Samples.{as_user, sender, sunny, ada, start}
use batch_managementof_cloud.Httpapi.Settings.{SettingsInput, admin_update_settings}
use batch_managementof_cloud.Httpapi.Settings.Secret.{admin_update_settings-secret_of}

abbrev demotion : Option UserChange
demotion = some (record {
  role = some "user";
  status = none;
  quota_droplets = absent;
  quota_vcpus = absent;
  quota_memory_mb = absent;
})

admin_update_user-HasAdmin_example :
    HasAdmin (admin_update_user (as_user ada) sender (some 1) demotion sunny start).1.db
unfolding active_admin_count
admin_update_user-HasAdmin_example =
    admin_update_user-HasAdmin (as_user ada) sender (some 1) demotion sunny start
      (ground arith, (ground arith, (ground arith, tt))) (omega arith)

abbrev settings : SettingsInput
settings = record {
  site_name = "Panel";
  timezone = "UTC";
  registration_enabled = false;
  maintenance_enabled = false;
  maintenance_message = "";
  session_hours = pos 24;
  droplets = none;
  vcpus = none;
  memory_mb = none;
  host = "";
  port = pos 587;
  username = "";
  password = "";
  clear_password = false;
  from = "";
  starttls = true;
}

admin_update_settings-secret_of_example :
    secret_of (admin_update_settings (as_user ada) sender (some settings) sunny start).1.db "smtp"
    ≡ secret_of start.db "smtp"
admin_update_settings-secret_of_example =
    admin_update_settings-secret_of (as_user ada) sender settings "smtp" sunny start refl refl
