-- ===== src/Robot.antt =====
-- pkg/robot: the client of Hetzner's Robot API. net/http and encoding/json are parameters.
use cluster_api_provider_het.Prelude.{
  ℕ, Bool, Option, none, some, List, [], ◌∷◌, ◌++◌, leb, if◌then◌else◌,
}
use cluster_api_provider_het.Text.{Text, text, concat, is_empty}
use cluster_api_provider_het.Text.Decimal.{itoa}
use cluster_api_provider_het.Result.{Result, Done, ok, err, map_err}

pub data Method : Type 0 where
  get post delete : Method

-- A request at the base URL, with the form in its body.
pub record Request : Type 0 where
  pub method : Method
  pub path : Text
  pub form : List (Text × Text)

pub record Response : Type 0 where
  pub status : ℕ
  pub body : Result Text

-- ServerInfo
pub record ServerInfo : Type 0 where
  pub server_ip : Text
  pub server_ipv6_net : Text

-- The answers of net/http, and of encoding/json on the bodies that the client decodes.
pub record Http : Type 0 where
  pub request_error : Request → Option Text
  pub round_trip : Request → Result Response
  pub rescue_active : (body : Text) → Result Bool
  pub server_info : (body : Text) → Result ServerInfo
  pub any_json : (body : Text) → Done

-- A method's name and path in a message.
pub at_path : Text → Text → Text → Text
at_path what path e = concat (what ∷ path ∷ text ": " ∷ e ∷ [])

pub api_error : ℕ → Text → Text
api_error status rest = concat (text "robot API error " ∷ itoa status ∷ rest ∷ [])

abbrev method_text : Method → Text
method_text get = text "GET "
method_text post = text "POST "
method_text delete = text "DELETE "

-- The check of the status behind io.ReadAll.
unfoldable pub check_status : {A : Type 0} → Request → Response → (Text → Result A) → Result A
check_status req resp decode = elim resp.body [
  | err e ↦ err e
  | ok body ↦
      if leb 400 resp.status
      then err (
          api_error resp.status
            (concat (text " on " ∷ method_text req.method ∷ req.path ∷ text ": " ∷ body ∷ [])))
      else decode body
]

-- Client.get and Client.post
unfoldable pub send : {A : Type 0} → Http → Request → (Text → Result A) → Result A
unfolding check_status
send h req decode = elim (h.request_error req) [
  | some e ↦ err e
  | none ↦ elim (h.round_trip req) [
    | err e ↦ err (at_path (text "robot API " ++ method_text req.method) req.path e)
    | ok resp ↦ check_status req resp decode
  ]
]

abbrev rescue_path : ℕ → Text
rescue_path id = concat (text "/boot/" ∷ itoa id ∷ text "/rescue" ∷ [])

unfoldable pub rescue_form : Text → List (Text × Text)
rescue_form fingerprint =
    if is_empty fingerprint
    then (text "os", text "linux") ∷ (text "arch", text "64") ∷ []
    else (text "os", text "linux")
      ∷ (text "arch", text "64")
      ∷ (text "authorized_key", fingerprint)
      ∷ []

-- Client.ActivateRescue
unfoldable pub robot_activate_rescue : Http → ℕ → Text → Result Bool
unfolding send rescue_form
robot_activate_rescue h id fingerprint =
    map_err (λ e. concat (text "activate rescue: " ∷ e ∷ []))
      (send h (record { method = post; path = rescue_path id; form = rescue_form fingerprint })
        h.rescue_active)

-- Client.GetRescueStatus, as far as its field Active
unfoldable pub robot_rescue_status : Http → ℕ → Result Bool
unfolding send
robot_rescue_status h id =
    send h (record { method = get; path = rescue_path id; form = [] }) h.rescue_active

-- Client.DeactivateRescue; an error of io.ReadAll is dropped
unfoldable pub robot_deactivate_rescue : Http → ℕ → Done
robot_deactivate_rescue h id =
    let req : Request = record { method = delete; path = rescue_path id; form = [] } in
    elim (h.request_error req) [
      | some e ↦ err e
      | none ↦ elim (h.round_trip req) [
        | err e ↦ err e
        | ok resp ↦
            if leb 400 resp.status
            then err (
                api_error resp.status (text ": " ++ elim resp.body [ ok body ↦ body | err e ↦ [] ]))
            else ok tt
      ]
    ]

-- Client.ResetServer with ResetTypeHardware
unfoldable pub robot_reset_server : Http → ℕ → Done
unfolding send
robot_reset_server h id =
    map_err (λ e. concat (text "reset server " ∷ itoa id ∷ text ": " ∷ e ∷ []))
      (send h
        (record {
          method = post;
          path = text "/reset/" ++ itoa id;
          form = (text "type", text "hw") ∷ [];
        })
        h.any_json)

-- Client.GetServer
unfoldable pub robot_get_server : Http → ℕ → Result ServerInfo
unfolding send
robot_get_server h id =
    send h (record { method = get; path = text "/server/" ++ itoa id; form = [] }) h.server_info

-- Client.GetServerByIP; nothing calls it
unfoldable pub robot_get_server_by_ip : Http → Text → Result ServerInfo
unfolding send
robot_get_server_by_ip h ip =
    send h (record { method = get; path = text "/server/" ++ ip; form = [] }) h.server_info

-- Client.SetServerName; nothing calls it
unfoldable pub robot_set_server_name : Http → ℕ → Text → Done
unfolding send
robot_set_server_name h id name =
    send h
      (record {
        method = post;
        path = text "/server/" ++ itoa id;
        form = (text "server_name", name) ∷ [];
      })
      h.any_json
