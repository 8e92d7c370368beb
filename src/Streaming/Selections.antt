-- ===== src/Streaming/Selections.antt =====
-- app/adapters/streaming/in_memory_comment_ranking_repositories.py, the repository of the comments
-- that were selected for a response, with the target of app/domain/streaming/comment_ranking.py.
pub mod Capacity
mod Examples
use ai_liver_yura.Common.{
  ℕ, zero, suc, ◌+◌, ◌-◌, ◌*◌, ◌≤◌, ◌<◌, String, ◌≡◌, refl, sym, ap, ◌∙◌, subst, ◌≢◌, ◌↔◌, ◌⊎◌, inl,
  inr, Bool, true, false, not, ◌&&◌, ◌||◌, Option, none, some, List, [], ◌∷◌, ◌++◌, map, arith, ltb,
  leb, if◌then◌else◌, Bool-cases, Option-cases, Eq, ◌==◌, string_eq, nat_eq, pair_eq, option_eq,
  bool_eq, list_eq, beq_refl, Result, ok, err, ◌>>=◌, ◌>>◌, guard, Result-cases, length,
  length-append, drop, take, keep, any, All, All-append, All-map, All-keep, contains, is_empty,
  or_else, or_none, given, is_some, nat_beq, nat_beq_iff,
}
use ai_liver_yura.Common.Dict.{Dict, get, set}

-- The reservation status is a text that the callers choose. The further data of a target stand as
-- one text.
pub record CommentResponseTarget : Type 0 where
  pub session_id : String
  pub candidate_id : String
  pub selection_id : String
  pub reservation_status : String
  pub expires_at : ℕ
  pub details : String

abbrev pub Key : Type 0
Key = String × String

-- `candidate_index` is a set.
pub record Selections : Type 0 where
  pub items : Dict String CommentResponseTarget
  pub candidate_index : List Key
  pub capacity : ℕ

abbrev pub new_selections : ℕ → Selections
new_selections capacity = record { items = []; candidate_index = []; capacity = capacity }

abbrev pub key_of : CommentResponseTarget → Key
key_of t = (t.session_id, t.candidate_id)

-- `discard`
abbrev pub discard : Key → List Key → List Key
discard k ks = keep (λ j. not (j == k)) ks

-- The loop that takes the oldest items out while there are too many.
unfoldable pub evict :
    ℕ → Dict String CommentResponseTarget → List Key → Dict String CommentResponseTarget × List Key
evict capacity [] index = ([], index)
evict capacity ((id, t) ∷ items) index =
    let rest = evict capacity items (discard (key_of t) index) in
    if ltb capacity (length ((id, t) ∷ items)) then rest else ((id, t) ∷ items, index)

abbrev pub store : Selections → Dict String CommentResponseTarget × List Key → Selections
store r (items, index) = record r { items = items; candidate_index = index }

unfoldable pub reserve : Selections → CommentResponseTarget → Bool × Selections
unfolding evict
reserve r t = if contains r.candidate_index (key_of t) then (false, r) else (
  true,
  store r (evict r.capacity (set t.selection_id t r.items) (key_of t ∷ r.candidate_index)),
)

abbrev pub is_reserved : CommentResponseTarget → Bool
is_reserved t = t.reservation_status == "reserved"

abbrev pub with_status : CommentResponseTarget → String → CommentResponseTarget
with_status t status = record t { reservation_status = status }

abbrev pub reversed : Dict String CommentResponseTarget → Dict String CommentResponseTarget
reversed [] = []
reversed (x ∷ xs) = reversed xs ++ x ∷ []

-- The loop of `current`, over the items from the newest on; the items are changed on the way.
unfoldable pub look :
    String
    → ℕ
    → Dict String CommentResponseTarget
    → Dict String CommentResponseTarget
    → Option CommentResponseTarget × Dict String CommentResponseTarget
look session now [] items = (none, items)
look session now ((id, t) ∷ rest) items =
    let skip = look session now rest items in
    let expire = look session now rest (set id (with_status t "expired") items) in
    if not (t.session_id == session) || not (is_reserved t)
    then skip
    else if leb t.expires_at now
    then expire
    else (some t, items)

unfoldable pub current : Selections → String → ℕ → Option CommentResponseTarget × Selections
unfolding look
current r session now =
    let (found, items) = look session now (reversed r.items) r.items in
    (found, record r { items = items })

abbrev refreshed : Selections → Option CommentResponseTarget → ℕ → Selections
refreshed r none now = r
refreshed r (some t) now = if is_reserved t then (current r t.session_id now).1 else r

-- `get`
unfoldable pub get_selection : Selections → String → ℕ → Option CommentResponseTarget × Selections
unfolding current
get_selection r id now = let r' = refreshed r (get id r.items) now in (get id r'.items, r')

abbrev reserve_again :
    Selections
    → Option CommentResponseTarget
    → String
    → ℕ
    → Option CommentResponseTarget × Selections
reserve_again r none id expires = (none, r)
reserve_again r (some t) id expires =
    let updated = record t { reservation_status = "reserved"; expires_at = expires } in
    if not (t.reservation_status == "released") then (none, r) else (
      some updated,
      record r { items = set id updated r.items; candidate_index = key_of t ∷ r.candidate_index },
    )

unfoldable pub reserve_released :
    Selections → String → ℕ → Option CommentResponseTarget × Selections
reserve_released r id expires = reserve_again r (get id r.items) id expires

abbrev pub moved :
    Selections
    → Option CommentResponseTarget
    → String
    → String
    → Option CommentResponseTarget × Selections
moved r none id status = (none, r)
moved r (some t) id status = if not (is_reserved t) then (none, r) else (
  some (with_status t status),
  record r {
    items = set id (with_status t status) r.items;
    candidate_index =
        if status == "released" then discard (key_of t) r.candidate_index else r.candidate_index;
  },
)

unfoldable pub transition : Selections → String → String → Option CommentResponseTarget × Selections
transition r id status = moved r (get id r.items) id status

abbrev pub expire_all :
    String → Dict String CommentResponseTarget → Dict String CommentResponseTarget
expire_all session [] = []
expire_all session ((id, t) ∷ items) =
    (id, if t.session_id == session && is_reserved t then with_status t "expired" else t)
    ∷ expire_all session items

unfoldable pub invalidate_session : Selections → String → Selections
invalidate_session r session = record r { items = expire_all session r.items }
