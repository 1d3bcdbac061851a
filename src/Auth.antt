-- ===== src/Auth.antt =====
-- dex/app/futures/api-auth-contract.js: permissions, request times, replay protection and the
-- verification of signed requests.
pub mod Replay
pub mod Lasting
use lqc_liquidity_chain.Common.{
  ℕ, suc, ◌+◌, ◌-◌, Bool, true, false, not, ◌||◌, Option, none, some, List, [], ◌∷◌, ◌++◌, ltb, leb,
  ◌==◌, if◌then◌else◌, same_text, length, Result, ok, err, ◌>>=◌, ◌>>◌, throw_if, required,
  map_result,
}
use lqc_liquidity_chain.Common.Dict.{Dict, contains, insert}
use lqc_liquidity_chain.Common.Text.{Text, codes, to_upper, trim, is_empty}

-- `API_PERMISSIONS`
pub data Permission : Type 0 where
  read trade withdraw : Permission

pub record KeyDescriptor : Type 0 where
  pub key_id : Text
  pub label : Text
  pub permissions : List Permission
  pub enabled : Bool

-- An integer field is `none` where it holds no integer that is at least zero; the window may be
-- missing too. `query` is the encoded query.
pub record Request : Type 0 where
  pub method : Text
  pub path : Text
  pub query : Text
  pub timestamp : Option ℕ
  pub recv_window : Option (Option ℕ)
  pub nonce : Text

-- `seen` maps a key to the time at which it expires, oldest first.
pub record ReplayGuard : Type 0 where
  pub ttl : ℕ
  pub limit : ℕ
  pub seen : Dict ℕ

pub record Principal : Type 0 where
  pub key_id : Text
  pub permission : Permission

pub record TimeCheck : Type 0 where
  pub server_time : ℕ
  pub request_time : ℕ
  pub recv_window : ℕ
  pub drift : ℕ

abbrev pub default_recv_window_ms : ℕ
default_recv_window_ms = 5000

abbrev pub max_recv_window_ms : ℕ
max_recv_window_ms = 60000

abbrev pub same_permission : Permission → Permission → Bool
same_permission read read = true
same_permission trade trade = true
same_permission withdraw withdraw = true
same_permission _ _ = false

abbrev pub has_permission : Permission → List Permission → Bool
has_permission p [] = false
has_permission p (q ∷ qs) = same_permission p q || has_permission p qs

unfoldable pub parse_permission : Text → Result Permission
parse_permission s =
    if same_text (to_upper s) (codes "READ")
    then ok read
    else if same_text (to_upper s) (codes "TRADE")
    then ok trade
    else if same_text (to_upper s) (codes "WITHDRAW")
    then ok withdraw
    else err "INVALID_API_PERMISSION"

-- `[...new Set(values)]`: the first of equal values stays.
unfoldable pub dedup : List Permission → List Permission → List Permission
dedup seen [] = []
dedup seen (p ∷ ps) =
    let rest = dedup (p ∷ seen) ps in if has_permission p seen then rest else p ∷ rest

unfoldable pub normalize_permissions : List Text → Result (List Permission)
unfolding parse_permission dedup
normalize_permissions permissions = do
  ps ← map_result parse_permission permissions
  ok (dedup [] ps)

unfoldable pub create_api_key_descriptor : Text → List Text → Bool → Text → Result KeyDescriptor
create_api_key_descriptor key_id permissions enabled label = do
  let id = trim key_id
  throw_if (is_empty id) "INVALID_API_KEY_ID"
  ps ← normalize_permissions permissions
  ok (record { key_id = id; label = label; permissions = ps; enabled = enabled })

unfoldable pub assert_permission : KeyDescriptor → Permission → Result (Unit {0})
assert_permission descriptor permission = do
  throw_if (not descriptor.enabled) "API_KEY_DISABLED"
  throw_if (not (has_permission permission descriptor.permissions)) "API_PERMISSION_DENIED"

-- `Math.abs(a - b)`
abbrev pub distance : ℕ → ℕ → ℕ
distance a b = (a - b) + (b - a)

abbrev pub window_or_default : Option (Option ℕ) → Option ℕ
window_or_default none = some default_recv_window_ms
window_or_default (some w) = w

unfoldable pub validate_request_timestamp : Option ℕ → Option (Option ℕ) → ℕ → Result TimeCheck
validate_request_timestamp timestamp recv_window server_time = do
  request_time ← required timestamp "INVALID_TIMESTAMP"
  window ← required (window_or_default recv_window) "INVALID_RECV_WINDOW"
  throw_if (ltb window 1 || ltb max_recv_window_ms window) "INVALID_RECV_WINDOW"
  let drift = distance server_time request_time
  throw_if (ltb window drift) "REQUEST_TIMESTAMP_EXPIRED"
  ok (record {
    server_time = server_time;
    request_time = request_time;
    recv_window = window;
    drift = drift;
  })

unfoldable pub create_replay_guard : ℕ → ℕ → Result ReplayGuard
create_replay_guard ttl limit = do
  throw_if (ttl == 0 || limit == 0) "INVALID_REPLAY_GUARD_CONFIG"
  ok (record { ttl = ttl; limit = limit; seen = [] })

-- the first loop of `prune`
unfoldable pub drop_expired : ℕ → Dict ℕ → Dict ℕ
drop_expired now [] = []
drop_expired now ((k, expires) ∷ seen) =
    if leb expires now then drop_expired now seen else (k, expires) ∷ drop_expired now seen

-- the second loop: the oldest go while there are too many
unfoldable pub drop_oldest : ℕ → Dict ℕ → Dict ℕ
drop_oldest limit [] = []
drop_oldest limit ((k, expires) ∷ seen) = elim (ltb limit (suc (length seen))) [
  | true ↦ drop_oldest limit seen
  | false ↦ (k, expires) ∷ seen
]

unfoldable pub prune : ℕ → ReplayGuard → ReplayGuard
prune now g = record g { seen = drop_oldest g.limit (drop_expired now g.seen) }

unfoldable pub replay_key : Text → Text → Text
replay_key key_id nonce = trim key_id ++ (codes ":" ++ trim nonce)

-- The guard comes back after an error too, since the pruning before it stays.
unfoldable pub consume : Text → Text → ℕ → ReplayGuard → Result (Unit {0}) × ReplayGuard
consume key_id nonce now g =
    let key = replay_key key_id nonce in
    let g' = prune now g in
    if same_text key (codes ":")
    then (err "INVALID_REPLAY_KEY", g)
    else if contains key g'.seen
    then (err "REPLAY_DETECTED", g')
    else (ok tt, prune now (record g' { seen = insert key (now + g'.ttl) g'.seen }))

pub record Signed : Type 0 where
  pub request : Request
  pub signature : Text

-- The check of signatures is the deployment's. The canonical text that it is given is a function of
-- the request.
abbrev pub Verifier : Type 0
Verifier = Text → Request → Text → Bool

abbrev pub consume_if :
    Option ReplayGuard → Text → Text → ℕ → Result (Unit {0}) × Option ReplayGuard
consume_if none key_id nonce now = (ok tt, none)
consume_if (some g) key_id nonce now = let (r, g') = consume key_id nonce now g in (r, some g')

-- what `verifySignedRequest` checks before the replay guard
unfoldable pub check_request :
    Verifier → Option KeyDescriptor → Permission → Signed → ℕ → Result KeyDescriptor
check_request verify_signature descriptor permission s server_time = do
  key ← required descriptor "API_KEY_REQUIRED"
  assert_permission key permission
  _ ← validate_request_timestamp s.request.timestamp s.request.recv_window server_time
  throw_if (is_empty (trim s.request.method) || is_empty (trim s.request.path))
      "INVALID_SIGNED_REQUEST"
  throw_if (not (verify_signature key.key_id s.request s.signature)) "INVALID_SIGNATURE"
  ok key

unfoldable pub verify_signed_request :
    Verifier
    → Option KeyDescriptor
    → Permission
    → Signed
    → ℕ
    → Option ReplayGuard
    → Result Principal × Option ReplayGuard
verify_signed_request verify_signature descriptor permission s server_time guard =
    elim (check_request verify_signature descriptor permission s server_time) [
      | err code ↦ (err code, guard)
      | ok key ↦
          let (consumed, guard') = consume_if guard key.key_id s.request.nonce server_time in
          (consumed >> ok (record { key_id = key.key_id; permission = permission }), guard')
    ]
