-- ===== src/Presence/Version.antt =====
-- src/room.ts: the version counter of the presence broadcasts in the class RoomDO, the upgrade of a
-- presence socket, and what RoomDO broadcasts.
use mathlib.Core.Option.{some-injective}
use wave_realtime_edge.Common.{
  sym, ◌∙◌, subst, ℕ, ◌+◌, ◌≤◌, ◌<◌, String, Bool, Option, none, some, List, [], ◌∷◌, ◌≡◌, refl,
  arith, str_eq, if◌then◌else◌,
}
use wave_realtime_edge.Room.State.{Role, host, speaker, viewer, RoomState}
use wave_realtime_edge.Room.Core.{or_default, is_host}
use wave_realtime_edge.Presence.Wire.{welcome}
use wave_realtime_edge.Presence.View.{project_room_view}
use wave_realtime_edge.Presence.Engine.{
  Effect, send, Socket, PresenceAttachment, ws_conn, broadcast_presence,
}

-- `presenceVer`, and what storage holds under PRESENCE_VER_KEY.
pub record Versions : Type 0 where
  pub cached : Option ℕ
  pub stored : Option ℕ

unfoldable pub seed_presence_version : Versions → Versions
seed_presence_version v = record v { cached = some (or_default v.cached (or_default v.stored 0)) }

unfoldable pub presence_version : Versions → Versions × ℕ
unfolding seed_presence_version
presence_version v = let v' = seed_presence_version v in (v', or_default v'.cached 0)

unfoldable pub bump_presence_version : Versions → Versions × ℕ
unfolding seed_presence_version
bump_presence_version v =
    let next = or_default (seed_presence_version v).cached 0 + 1 in
    (record { cached = some next; stored = some next }, next)

-- What happens to the counter: a broadcast, a welcome, or an eviction of the object.
pub data Event : Type 0 where
  emit welcomed evicted : Event

abbrev pub versions_after : Event → Versions → Versions
versions_after emit v = (bump_presence_version v).0
versions_after welcomed v = (presence_version v).0
versions_after evicted v = record v { cached = none }

-- The versions that the broadcasts among some events carry.
unfoldable pub emitted : List Event → Versions → List ℕ
emitted [] v = []
emitted (emit ∷ es) v = (bump_presence_version v).1 ∷ emitted es (versions_after emit v)
emitted (welcomed ∷ es) v = emitted es (versions_after welcomed v)
emitted (evicted ∷ es) v = emitted es (versions_after evicted v)

abbrev pub IsIncreasing : ℕ → List ℕ → Type 0
IsIncreasing n [] = Unit
IsIncreasing n (x ∷ xs) = (n < x) × IsIncreasing x xs

-- The cache, if it is filled, is what storage gives.
abbrev pub IsInStep : Versions → Type 0
IsInStep v = (n : ℕ) → v.cached ≡ some n → or_default v.stored 0 ≡ n

abbrev pub current : Versions → ℕ
current v = (presence_version v).1

abbrev current_of : Option ℕ → Option ℕ → ℕ
current_of cached stored = or_default cached (or_default stored 0)

current_of-step :
    (cached stored : Option ℕ)
    → ((n : ℕ) → cached ≡ some n → or_default stored 0 ≡ n)
    → current_of cached stored ≡ or_default stored 0
current_of-step none stored h = refl
current_of-step (some k) stored h = sym (h k refl)

after-IsInStep : (e : Event) (v : Versions) → IsInStep v → IsInStep (versions_after e v)
unfolding presence_version bump_presence_version
after-IsInStep emit v h = λ n e. some-injective _ _ e
after-IsInStep welcomed v h =
    λ n e. sym (current_of-step v.cached v.stored h) ∙ some-injective _ _ e
after-IsInStep evicted v h = λ n e. absurd (cc)

IsIncreasing-weaken : (m n : ℕ) (xs : List ℕ) → m ≤ n → IsIncreasing n xs → IsIncreasing m xs
IsIncreasing-weaken m n [] l h = tt
IsIncreasing-weaken m n (x ∷ xs) l (p, h) = (omega arith, h)

-- From a counter whose cache agrees with storage, the versions that broadcasts carry grow strictly,
-- beginning above the current one, with any evictions of the object and any welcomes in between.
pub emitted-IsIncreasing :
    (es : List Event) (v : Versions) → IsInStep v → IsIncreasing (current v) (emitted es v)
unfolding emitted presence_version bump_presence_version
emitted-IsIncreasing [] v h = tt
emitted-IsIncreasing (emit ∷ es) v h =
    (omega arith, emitted-IsIncreasing es _ (after-IsInStep emit v h))
emitted-IsIncreasing (welcomed ∷ es) v h = emitted-IsIncreasing es _ (after-IsInStep welcomed v h)
emitted-IsIncreasing (evicted ∷ es) v h =
    let same = current_of-step v.cached v.stored h in
    subst (λ n. IsIncreasing n (emitted es (versions_after evicted v))) (sym same)
      (emitted-IsIncreasing es (versions_after evicted v) (after-IsInStep evicted v h))

-- A presence upgrade: what the runtime offers, and the identity in the query.
pub data Upgrade : Type 0 where
  refused : ℕ → Upgrade
  joined : PresenceAttachment → List Effect → Upgrade

abbrev role_of : String → Role
role_of raw = if str_eq raw "host" then host else if str_eq raw "speaker" then speaker else viewer

-- `acceptPresence` and `acceptPresenceSocket`, where the runtime can make a pair of sockets: the new
-- socket is `id`, and it is sent its welcome.
unfoldable pub accept_presence :
    Bool → ℕ → Option String → Option String → RoomState → Versions → Versions × Upgrade
unfolding presence_version
accept_presence hibernation id participant role s v =
    let pid = or_default participant "" in
    let who : PresenceAttachment = record {
      participant_id = pid;
      role = role_of (or_default role "viewer");
    } in
    let (v', version) = presence_version v in
    if hibernation
    then if str_eq pid "" then (v, refused 400) else (
      v',
      joined who
          (send (ws_conn id who) (welcome version (project_room_view s (is_host who.role))) ∷ []),
    )
    else (v, refused 503)

-- `emitPresence`: the state goes to every presence socket, under a new version.
unfoldable pub emit_presence : List Socket → RoomState → Versions → Versions × List Effect
unfolding bump_presence_version
emit_presence sockets s v =
    let (v', version) = bump_presence_version v in (v', broadcast_presence sockets s version)
