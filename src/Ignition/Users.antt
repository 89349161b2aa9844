-- ===== src/Ignition/Users.antt =====
-- addSSHAuthorizedKey.
pub mod Exact
use cluster_api_provider_het.Prelude.{Bool, true, false, ◌||◌, if◌then◌else◌}
use cluster_api_provider_het.Text.{Text, text}
use cluster_api_provider_het.Result.{Result}
use cluster_api_provider_het.Config.{
  Value, Items, Fields, str, seq, obj, nil, item, end, field, get, set, child_list, append_item,
}
use cluster_api_provider_het.Inject.{set_absent}
use cluster_api_provider_het.Ignition.Document.{is_text, change_map, change_list}
use cluster_api_provider_het.Prelude.{some}

unfoldable pub has_text : Text → Items → Bool
has_text s nil = false
has_text s (item v l) = is_text s (some v) || has_text s l

abbrev pub keys_of : Fields → Items
keys_of user = child_list (get (text "sshAuthorizedKeys") user)

-- The key is appended to a user's keys unless it is one of them.
unfoldable pub with_key : Text → Fields → Fields
unfolding has_text
with_key key user =
    if has_text key (keys_of user)
    then user
    else set (text "sshAuthorizedKeys") (seq (append_item (keys_of user) (str key))) user

abbrev pub new_user : Text → Text → Fields
new_user username key =
    field (text "name") (str username)
      (field (text "sshAuthorizedKeys") (seq (item (str key) nil)) end)

-- The loop, which ends at the first entry of the user, and the new entry behind it.
unfoldable pub authorize : Text → Text → Items → Items
unfolding with_key
authorize username key nil = item (obj (new_user username key)) nil
authorize username key (item (obj user) l) =
    let rest = authorize username key l in
    if is_text username (get (text "name") user)
    then item (obj (with_key key user)) l
    else item (obj user) rest
authorize username key (item v l) = item v (authorize username key l)

unfoldable pub authorize_passwd : Text → Text → Fields → Result Fields
unfolding set_absent change_list authorize
authorize_passwd username key passwd =
    change_list (text "users") (authorize username key) (set_absent (text "users") (seq nil) passwd)

-- addSSHAuthorizedKey
unfoldable pub add_authorized_key : Text → Text → Fields → Result Fields
unfolding set_absent change_map authorize_passwd
add_authorized_key username key ign =
    change_map (text "passwd") (authorize_passwd username key)
      (set_absent (text "passwd") (obj end) ign)
