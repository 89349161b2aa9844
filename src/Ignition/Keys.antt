-- ===== src/Ignition/Keys.antt =====
-- The keys at the top of an Ignition document.
use cluster_api_provider_het.Prelude.{◌≡◌, refl, false}
use cluster_api_provider_het.Text.{text, text_eq}

pub storage_ne_systemd : text_eq (text "storage") (text "systemd") ≡ false
unfolding text text_eq
storage_ne_systemd = refl

pub storage_ne_passwd : text_eq (text "storage") (text "passwd") ≡ false
unfolding text text_eq
storage_ne_passwd = refl

pub systemd_ne_storage : text_eq (text "systemd") (text "storage") ≡ false
unfolding text text_eq
systemd_ne_storage = refl

pub systemd_ne_passwd : text_eq (text "systemd") (text "passwd") ≡ false
unfolding text text_eq
systemd_ne_passwd = refl

pub passwd_ne_storage : text_eq (text "passwd") (text "storage") ≡ false
unfolding text text_eq
passwd_ne_storage = refl

pub passwd_ne_systemd : text_eq (text "passwd") (text "systemd") ≡ false
unfolding text text_eq
passwd_ne_systemd = refl
