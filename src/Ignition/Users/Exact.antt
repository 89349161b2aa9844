-- ===== src/Ignition/Users/Exact.antt =====
-- The authorised keys of a list of users.
use cluster_api_provider_het.Prelude.{
  ◌≡◌, refl, Bool, true, false, ◌&&◌, ◌||◌, Option, none, some, arith, if◌then◌else◌, Bool-cases,
  inl, inr,
}
use cluster_api_provider_het.Text.{Text, text, text_eq}
use cluster_api_provider_het.Text.Equal.{text_eq_iff}
use cluster_api_provider_het.Config.{
  Value, Items, Fields, str, seq, obj, nil, item, get, append_item,
}
use cluster_api_provider_het.Config.Paths.{get-set_self}
use cluster_api_provider_het.Ignition.Document.{is_text}
use cluster_api_provider_het.Ignition.Document.Changes.{get-set_ne}
use cluster_api_provider_het.Ignition.Users.{has_text, keys_of, with_key, new_user, authorize}

-- Is the key among those of the user's first entry?
unfoldable pub is_authorized : Text → Text → Items → Bool
unfolding has_text
is_authorized username key nil = false
is_authorized username key (item (obj user) l) =
    let rest = is_authorized username key l in
    if is_text username (get (text "name") user) then has_text key (keys_of user) else rest
is_authorized username key (item v l) = is_authorized username key l

has_text-append :
    (s k : Text) (l : Items) → has_text s (append_item l (str k)) ≡ (has_text s l || text_eq k s)
unfolding has_text append_item
has_text-append s k nil = ground arith
has_text-append s k (item v l) = ground (arith, has_text-append s k l)

name_ne_keys : text_eq (text "sshAuthorizedKeys") (text "name") ≡ false
unfolding text text_eq
name_ne_keys = refl

with_key-name :
    (k : Text) (user : Fields) → get (text "name") (with_key k user) ≡ get (text "name") user
unfolding with_key
with_key-name k user = ground (
  arith,
  get-set_ne (text "sshAuthorizedKeys") (text "name") (seq (append_item (keys_of user) (str k)))
      user name_ne_keys,
)

with_key-keys :
    (s k : Text) (user : Fields)
    → has_text s (keys_of (with_key k user)) ≡ (has_text s (keys_of user) || text_eq k s)
unfolding with_key
with_key-keys s k user = elim (Bool-cases (has_text k (keys_of user))) [
  | inl old ↦ ground (arith, old, text_eq_iff k s)
  | inr new ↦ ground (
    arith,
    new,
    get-set_self (text "sshAuthorizedKeys") (seq (append_item (keys_of user) (str k))) user,
    has_text-append s k (keys_of user),
  )
]

new_user-name : (u k : Text) → get (text "name") (new_user u k) ≡ some (str u)
unfolding get text text_eq
new_user-name u k = refl

new_user-keys : (s u k : Text) → has_text s (keys_of (new_user u k)) ≡ text_eq k s
unfolding get text text_eq has_text
new_user-keys s u k = ground arith

is_text_value : (s : Text) (v : Option Value) → is_text s v ≡ true → v ≡ some (str s)
is_text_value s none h = cc
is_text_value s (some (Value.str t)) h = ground (arith, text_eq_iff t s)
is_text_value s (some _) h = cc

pub is_authorized-authorize :
    (u k u' k' : Text) (l : Items)
    → is_authorized u' k' (authorize u k l)
      ≡ (is_authorized u' k' l || (text_eq u u' && text_eq k k'))
unfolding is_authorized authorize
is_authorized-authorize u k u' k' nil = ground (arith, new_user-name u k, new_user-keys k' u k)
is_authorized-authorize u k u' k' (item (Value.obj user) l) =
    elim (Bool-cases (is_text u (get (text "name") user))) [
      | inl here ↦ ground (
        arith,
        here,
        is_text_value u (get (text "name") user) here,
        with_key-name k user,
        with_key-keys k' k user,
        text_eq_iff u u',
      )
      | inr there ↦ ground (arith, there, text_eq_iff u u', is_authorized-authorize u k u' k' l)
    ]
is_authorized-authorize u k u' k' (item _ l) = is_authorized-authorize u k u' k' l
