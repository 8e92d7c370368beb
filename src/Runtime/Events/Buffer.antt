-- ===== src/Runtime/Events/Buffer.antt =====
-- What app/runtime/event_buffer.py holds after any events.
use mathlib.Core.List.{append_assoc, append-nil}
use ai_liver_yura.Common.{
  String, ◌≡◌, subst, inl, inr, true, false, arith, contains, contains-append, beq_refl, Bool-cases,
  refl, sym, ap, ◌∙◌, Bool, not, Option, none, some, List, [], ◌∷◌, ◌++◌, if◌then◌else◌, ◌==◌,
  string_eq, nat_eq, pair_eq, option_eq, bool_eq, list_eq, keep, is_some,
}
use ai_liver_yura.Common.Dict.{Dict, get, set, get-set, values, keys}
use ai_liver_yura.Runtime.Events.{AgentEvent, EventBuffer, empty_buffer, buffer, put_keyed, drain}

unfoldable pub buffer_all : EventBuffer → List AgentEvent → EventBuffer
unfolding buffer
buffer_all b [] = b
buffer_all b (e ∷ es) = buffer_all (buffer b e) es

abbrev pub is_normal : AgentEvent → Bool
is_normal e = not (is_some e.replace_key)

-- The last of the events that has the key, or what is given.
unfoldable pub latest : String → List AgentEvent → Option AgentEvent → Option AgentEvent
latest key [] last = last
latest key (e ∷ es) last = latest key es (if e.replace_key == some key then some e else last)

normal-put_keyed :
    (b : EventBuffer) (e : AgentEvent) (key : Option String) (rest : List AgentEvent)
    → (put_keyed b e key).normal_events ++ rest
      ≡ b.normal_events ++ (if not (is_some key) then e ∷ rest else rest)
normal-put_keyed b e none rest = append_assoc b.normal_events (e ∷ []) rest
normal-put_keyed b e (some key) rest = refl

normal_all :
    (b : EventBuffer) (es : List AgentEvent)
    → (buffer_all b es).normal_events ≡ b.normal_events ++ keep is_normal es
unfolding buffer_all buffer
normal_all b [] = sym (append-nil b.normal_events)
normal_all b (e ∷ es) =
    normal_all (put_keyed b e e.replace_key) es
    ∙ normal-put_keyed b e e.replace_key (keep is_normal es)

get-put_keyed :
    (wanted : String) (b : EventBuffer) (e : AgentEvent) (key : Option String)
    → get wanted (put_keyed b e key).replaceable_events
      ≡ (if key == some wanted then some e else get wanted b.replaceable_events)
get-put_keyed wanted b e none = refl
get-put_keyed wanted b e (some key) = get-set key wanted e b.replaceable_events

latest_all :
    (key : String) (b : EventBuffer) (es : List AgentEvent)
    → get key (buffer_all b es).replaceable_events ≡ latest key es (get key b.replaceable_events)
unfolding buffer_all buffer latest
latest_all key b [] = refl
latest_all key b (e ∷ es) =
    latest_all key (put_keyed b e e.replace_key) es
    ∙ ap (latest key es) (get-put_keyed key b e e.replace_key)

-- A key that is not there yet goes to the end.
abbrev pub add_key : Option String → List String → List String
add_key none ks = ks
add_key (some k) ks = if contains ks k then ks else ks ++ k ∷ []

-- The keys of the events, in the order in which they came for the first time, behind others.
abbrev pub first_keys : List AgentEvent → List String → List String
first_keys [] ks = ks
first_keys (e ∷ es) ks = first_keys es (add_key e.replace_key ks)

abbrev with_found : Option AgentEvent → List AgentEvent → List AgentEvent
with_found none es = es
with_found (some e) es = e ∷ es

-- What is found under the keys, in their order.
abbrev pub lookups : (String → Option AgentEvent) → List String → List AgentEvent
lookups f [] = []
lookups f (k ∷ ks) = with_found (f k) (lookups f ks)

lookups_cong :
    (f g : String → Option AgentEvent) (ks : List String)
    → ((k : String) → contains ks k ≡ true → f k ≡ g k)
    → lookups f ks ≡ lookups g ks
lookups_cong f g [] h = refl
lookups_cong f g (k ∷ ks) h =
    let here : f k ≡ g k = h k (rw (beq_refl k) refl) in
    let others : lookups f ks ≡ lookups g ks =
      lookups_cong f g ks (λ j c. h j (ground (arith, c))) in
    rw (here, others) refl

Distinct : List String → Type 0
Distinct [] = Unit {0}
Distinct (k ∷ ks) = (contains ks k ≡ false) × Distinct ks

Distinct-snoc :
    (ks : List String) (k : String) → contains ks k ≡ false → Distinct ks → Distinct (ks ++ k ∷ [])
unfolding Distinct
Distinct-snoc [] k h d = (refl, tt)
Distinct-snoc (j ∷ ks) k h (n, d) = (
  ground (arith, contains-append ks (k ∷ []) j, string_eq.beq_iff j k, string_eq.beq_iff k j),
  Distinct-snoc ks k (ground arith) d,
)

Distinct-add_key :
    (key : Option String) (ks : List String) → Distinct ks → Distinct (add_key key ks)
Distinct-add_key none ks d = d
Distinct-add_key (some k) ks d = elim (Bool-cases (contains ks k)) [
  | inl y ↦ rw y d
  | inr n ↦ rw n (Distinct-snoc ks k n d)
]

Distinct-first_keys :
    (es : List AgentEvent) (ks : List String) → Distinct ks → Distinct (first_keys es ks)
Distinct-first_keys [] ks d = d
Distinct-first_keys (e ∷ es) ks d =
    Distinct-first_keys es (add_key e.replace_key ks) (Distinct-add_key e.replace_key ks d)

keys-set :
    (k : String) (v : AgentEvent) (d : Dict String AgentEvent)
    → keys (set k v d) ≡ add_key (some k) (keys d)
unfolding set
keys-set k v [] = refl
keys-set k v ((j, w) ∷ d) = elim (Bool-cases (j == k)) [
  | inl y ↦ rw y refl
  | inr n ↦ rw (n, keys-set k v d) (go (contains (keys d) k))
]
  where
    go :
        (b : Bool)
        → j ∷ (if b then keys d else keys d ++ k ∷ [])
          ≡ (if b then j ∷ keys d else j ∷ (keys d ++ k ∷ []))
    go true = refl
    go false = refl

keys-put_keyed :
    (b : EventBuffer) (e : AgentEvent) (key : Option String)
    → keys (put_keyed b e key).replaceable_events ≡ add_key key (keys b.replaceable_events)
keys-put_keyed b e none = refl
keys-put_keyed b e (some k) = keys-set k e b.replaceable_events

keys_all :
    (b : EventBuffer) (es : List AgentEvent)
    → keys (buffer_all b es).replaceable_events ≡ first_keys es (keys b.replaceable_events)
unfolding buffer_all buffer
keys_all b [] = refl
keys_all b (e ∷ es) =
    keys_all (put_keyed b e e.replace_key) es
    ∙ ap (first_keys es) (keys-put_keyed b e e.replace_key)

-- A dictionary without repeated keys is read back through them.
values-keys :
    (d : Dict String AgentEvent) → Distinct (keys d) → values d ≡ lookups (λ k. get k d) (keys d)
unfolding get Distinct
values-keys [] h = refl
values-keys ((k, v) ∷ d) (n, h) =
    let others : lookups (λ j. get j d) (keys d) ≡ lookups (λ j. get j ((k, v) ∷ d)) (keys d) =
      lookups_cong _ _ (keys d) (λ j c. ground (arith, string_eq.beq_iff k j, n, c)) in
    rw (beq_refl k) (ap (λ l. v ∷ l) (values-keys d h ∙ others))

get-empty_buffer : (key : String) → get key empty_buffer.replaceable_events ≡ none
unfolding get
get-empty_buffer key = refl

-- Of events that came into an empty buffer, `drain` hands out all those without a key in their
-- order and then, for each key in the order in which the keys first came, the last event with that
-- key and nothing else; it leaves a buffer that drains to nothing.
pub drain-buffer_all :
    (es : List AgentEvent)
    → ((drain (buffer_all empty_buffer es)).0
        ≡ keep is_normal es ++ lookups (λ key. latest key es none) (first_keys es []))
      × ((drain (drain (buffer_all empty_buffer es)).1).0 ≡ [])
unfolding drain Distinct
drain-buffer_all es =
    let d = (buffer_all empty_buffer es).replaceable_events in
    let order = keys_all empty_buffer es in
    let read : values d ≡ lookups (λ key. get key d) (first_keys es []) =
      values-keys d (subst Distinct (sym order) (Distinct-first_keys es [] tt))
      ∙ ap (lookups (λ key. get key d)) order in
    let last : lookups (λ key. get key d) (first_keys es [])
        ≡ lookups (λ key. latest key es none) (first_keys es []) =
      lookups_cong _ _ (first_keys es [])
        (λ key c. latest_all key empty_buffer es ∙ ap (latest key es) (get-empty_buffer key)) in
    (
      ap (λ l. l ++ values d) (normal_all empty_buffer es)
          ∙ ap (λ l. keep is_normal es ++ l) (read ∙ last),
      refl,
    )
