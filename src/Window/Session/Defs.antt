-- ===== src/Window/Session/Defs.antt =====
-- `Session` and `SessionWindower`, one function for each method. A value `none` is a panic.
use mathlib.Core.List.{Permᴰ}
use bytewax.Prelude.{
  pos, ◌+ℤ◌, ◌≤ℤ◌, ltb_ℤ, eqb_ℤ, min_ℤ, max_ℤ, Bool, true, false, not, ◌&&◌, Option, none, some,
  List, [], ◌∷◌, ◌++◌, ◌>>=◌, ◌>>◌, assert, if◌then◌else◌, filter, map, Pairs,
}
use bytewax.Prelude.Words.{wrap_i64}
use bytewax.Window.Types.{
  DateTime, Duration, WindowKey, WindowMetadata, InsertResult, ok, late, Arithmetic,
}

pub record Session : Type 0 where
  pub key : WindowKey
  pub start : DateTime
  pub latest_event_time : DateTime

unfoldable pub session_new : WindowKey → DateTime → Session
session_new key start = record { key = key; start = start; latest_event_time = start }

unfoldable pub current_close_time : Session → Duration → DateTime
current_close_time s gap = s.latest_event_time +ℤ gap

unfoldable pub is_open_at : Session → DateTime → Duration → Bool
unfolding current_close_time
is_open_at s time gap = ltb_ℤ time (current_close_time s gap)

unfoldable pub contains : Session → DateTime → Duration → Bool
unfolding is_open_at
contains s item_time gap = not (ltb_ℤ item_time s.start) && is_open_at s item_time gap

unfoldable pub try_insert : Session → DateTime → Duration → Session × Bool
unfolding contains
try_insert s item_time gap =
    if contains s item_time gap
    then (record s { latest_event_time = max_ℤ s.latest_event_time item_time }, true)
    else (s, false)

unfoldable pub merge_with : Session → Session → Session
merge_with s other = record {
  key = s.key;
  start = min_ℤ s.start other.start;
  latest_event_time = max_ℤ s.latest_event_time other.latest_event_time;
}

-- `impl From<&Session> for WindowMetadata`.
unfoldable pub session_metadata : Session → WindowMetadata
session_metadata s = record { open_time = s.start; close_time = s.latest_event_time }

-- `impl Ord for Session`: by the start.
abbrev pub StartsBy : Session → Session → Type 0
StartsBy s r = s.start ≤ℤ r.start

-- `slice::sort_unstable`: some arrangement of the sessions in the order of their starts; which of two
-- sessions with one start comes first is not specified.
pub record UnstableSort : Type 0 where
  pub sort_unstable : List Session → List Session
  pub sort_unstable-Pairs : (ss : List Session) → Pairs StartsBy (sort_unstable ss)
  pub sort_unstable-permᴰ : (ss : List Session) → Permᴰ ss (sort_unstable ss)

pub record SessionWindower : Type 0 where
  pub gap : Duration
  pub sessions : List Session
  pub max_key : WindowKey

-- `SessionWindower::builder`, over the snapshot, if any.
unfoldable pub build :
    Arithmetic → Duration → Option (List Session × WindowKey) → Option SessionWindower
build ar gap none = do
  assert (ltb_ℤ (pos 0) (ar.num_milliseconds gap))
  some (record { gap = gap; sessions = []; max_key = pos 0 })
build ar gap (some (sessions, max_key)) = do
  assert (ltb_ℤ (pos 0) (ar.num_milliseconds gap))
  some (record { gap = gap; sessions = sessions; max_key = max_key })

unfoldable pub next_key : SessionWindower → SessionWindower × WindowKey
next_key w = let key = wrap_i64 (w.max_key +ℤ pos 1) in (record w { max_key = key }, key)

unfoldable pub add_session : UnstableSort → SessionWindower → DateTime → SessionWindower
unfolding next_key session_new
add_session by w item_time =
    let (w₁, key) = next_key w in
    record w₁ { sessions = by.sort_unstable (w₁.sessions ++ session_new key item_time ∷ []) }

-- The fold of `merge_sessions`, from the session that stands last in its accumulator on.
unfoldable pub merge_from : Duration → Session → List Session → List Session
unfolding contains merge_with
merge_from gap prev_session [] = prev_session ∷ []
merge_from gap prev_session (session ∷ rest) =
    if contains prev_session session.start gap
    then merge_from gap (merge_with prev_session session) rest
    else prev_session ∷ merge_from gap session rest

unfoldable pub merge_all : Duration → List Session → List Session
unfolding merge_from
merge_all gap [] = []
merge_all gap (session ∷ rest) = merge_from gap session rest

unfoldable pub merge_sessions : SessionWindower → SessionWindower
unfolding merge_all
merge_sessions w = record w { sessions = merge_all w.gap w.sessions }

-- The `find_map` of `insert`: the first session that takes the item.
unfoldable pub insert_first : Duration → DateTime → List Session → Option (List Session × WindowKey)
unfolding try_insert
insert_first gap item_time [] = none
insert_first gap item_time (session ∷ rest) =
    let (session', taken) = try_insert session item_time gap in
    let others = insert_first gap item_time rest >>= λ r. some (session' ∷ r.0, r.1) in
    if taken then some (session' ∷ rest, session'.key) else others

-- `Windower::insert`.
unfoldable pub insert_item :
    UnstableSort
    → SessionWindower
    → DateTime
    → DateTime
    → Option (SessionWindower × List InsertResult)
unfolding add_session merge_sessions insert_first
insert_item by w watermark item_time =
    let w₁ = merge_sessions (add_session by w item_time) in
    if ltb_ℤ item_time watermark then some (w, late w.max_key ∷ []) else do
      (sessions, key) ← insert_first w₁.gap item_time w₁.sessions
      some (record w₁ { sessions = sessions }, ok key ∷ [])

unfoldable pub find : WindowKey → List Session → Option Session
find key [] = none
find key (s ∷ ss) = if eqb_ℤ s.key key then some s else find key ss

unfoldable pub get_metadata : SessionWindower → WindowKey → Option WindowMetadata
unfolding find session_metadata
get_metadata w key = do s ← find key w.sessions; some (session_metadata s)

-- The keys that the closure of `drain_closed` collects, in the order of the sessions.
unfoldable pub drain_closed :
    SessionWindower → DateTime → SessionWindower × List (WindowKey × WindowMetadata)
unfolding is_open_at session_metadata
drain_closed w watermark = (
  record w { sessions = filter (λ s. is_open_at s watermark w.gap) w.sessions },
  map (λ s. (s.key, session_metadata s))
      (filter (λ s. not (is_open_at s watermark w.gap)) w.sessions),
)

unfoldable pub is_empty : SessionWindower → Bool
is_empty w = elim w.sessions [ [] ↦ true | s ∷ ss ↦ false ]

unfoldable pub last : List Session → Option Session
last [] = none
last (s ∷ []) = some s
last (s ∷ r ∷ ss) = last (r ∷ ss)

unfoldable pub next_close : SessionWindower → Option DateTime
unfolding last current_close_time
next_close w = do s ← last w.sessions; some (current_close_time s w.gap)
