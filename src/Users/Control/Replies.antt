-- ===== src/Users/Control/Replies.antt =====
-- The answers to each request, given and owed, and what an arrival does to them.
use audio_rtc_exp.Prelude.{
  ℕ, ◌+◌, ◌≤◌, ◌≡◌, inl, inr, List, [], ◌∷◌, ◌++◌, Option, none, some, arith, lookup, length,
  length-append, if◌then◌else◌, Option-cases, Bool-cases, ltb, ◌==◌, nat_eq,
}
use audio_rtc_exp.Users.Control.{
  CreateUserRequest, DeleteUserRequest, SetStatusUserRequest, UserStatusControl, UserEvent, creates,
  deletes, sets, Reply, reply, capacity, enqueue, handle_create, handle_delete, handle_set_status,
}

-- What may happen to the controller: a request arrives, with its number, or the loop takes an action
-- or a tick.
pub data Stimulus : Type 0 where
  create_request : ℕ → Option CreateUserRequest → Stimulus
  delete_request : ℕ → Option DeleteUserRequest → Stimulus
  status_request : ℕ → Option SetStatusUserRequest → Stimulus
  event ticking : ℕ → Stimulus

-- 1 for the number asked for.
abbrev pub mark : ℕ → ℕ → ℕ
mark i id = if id == i then 1 else 0

-- How many replies answer a request.
unfoldable pub replies_to : ℕ → List (ℕ × Reply) → ℕ
replies_to i [] = 0
replies_to i ((id, a) ∷ rs) = mark i id + replies_to i rs

abbrev pub request_of : UserEvent → ℕ
request_of (creates id req max_anchors) = id
request_of (deletes id req) = id
request_of (sets id req) = id

-- How many actions will answer it.
unfoldable pub actions_for : ℕ → List UserEvent → ℕ
actions_for i [] = 0
actions_for i (e ∷ es) = mark i (request_of e) + actions_for i es

-- The answers to a request that were given or are still owed.
unfoldable pub answers : ℕ → UserStatusControl → ℕ
unfolding replies_to actions_for
answers i c = replies_to i c.replies + actions_for i c.user_event_ch + actions_for i c.senders

-- How often a request arrives.
unfoldable pub arrivals : ℕ → List Stimulus → ℕ
arrivals i [] = 0
arrivals i (create_request id r ∷ ss) = mark i id + arrivals i ss
arrivals i (delete_request id r ∷ ss) = mark i id + arrivals i ss
arrivals i (status_request id r ∷ ss) = mark i id + arrivals i ss
arrivals i (event now ∷ ss) = arrivals i ss
arrivals i (ticking now ∷ ss) = arrivals i ss

-- The actions that have not run.
abbrev pub owed : UserStatusControl → ℕ
owed c = length c.user_event_ch + length c.senders

-- A handler waits only while the channel is full.
abbrev pub IsBounded : UserStatusControl → Type 0
IsBounded c = (length c.user_event_ch ≤ 10) × (1 ≤ length c.senders → length c.user_event_ch ≡ 10)

pub replies_to-append :
    (i id : ℕ) (a : Reply) (rs : List (ℕ × Reply))
    → replies_to i (rs ++ (id, a) ∷ []) ≡ replies_to i rs + mark i id
unfolding replies_to
replies_to-append i id a [] = omega arith
replies_to-append i id a ((j, b) ∷ rs) = omega (arith, replies_to-append i id a rs)

pub actions_for-append :
    (i : ℕ) (e : UserEvent) (es : List UserEvent)
    → actions_for i (es ++ e ∷ []) ≡ actions_for i es + mark i (request_of e)
unfolding actions_for
actions_for-append i e [] = omega arith
actions_for-append i e (x ∷ es) = omega (arith, actions_for-append i e es)

-- What an arrival does: one answer more is given or owed.
pub record Arrives (i id : ℕ) (c d : UserStatusControl) : Type 0 where
  pub more : answers i d ≡ mark i id + answers i c
  pub bounded : IsBounded c → IsBounded d

reply-Arrives : (i id : ℕ) (a : Reply) (c : UserStatusControl) → Arrives i id c (reply id a c)
unfolding answers
reply-Arrives i id a c = record {
  more = omega (arith, replies_to-append i id a c.replies);
  bounded = λ b. b;
}

enqueue-Arrives :
    (i : ℕ) (e : UserEvent) (c : UserStatusControl) → Arrives i (request_of e) c (enqueue e c)
unfolding answers enqueue
enqueue-Arrives i e c = elim (Bool-cases (ltb (length c.user_event_ch) capacity)) [
  | inl t ↦ record {
    more = rw (enqueue, t) (omega (arith, actions_for-append i e c.user_event_ch));
    bounded =
        λ b. rw (enqueue, t) (ground (arith, b.0, b.1, length-append {0} c.user_event_ch (e ∷ [])));
  }
  | inr t ↦ record {
    more = rw (enqueue, t) (omega (arith, actions_for-append i e c.senders));
    bounded = λ b. rw (enqueue, t) (ground (arith, b.0, b.1, length-append {0} c.senders (e ∷ [])));
  }
]

pub handle_create-Arrives :
    (i id : ℕ) (r : Option CreateUserRequest) (c : UserStatusControl)
    → Arrives i id c (handle_create id r c)
unfolding handle_create
handle_create-Arrives i id none c = reply-Arrives i id _ c
handle_create-Arrives i id (some req) c = elim (Option-cases (lookup req.room_id c.cached_rooms)) [
  | inl e ↦ rw (handle_create, e) (reply-Arrives i id _ c)
  | inr (room, e) ↦ rw (handle_create, e) (enqueue-Arrives i (creates id req _) c)
]

pub handle_delete-Arrives :
    (i id : ℕ) (r : Option DeleteUserRequest) (c : UserStatusControl)
    → Arrives i id c (handle_delete id r c)
unfolding handle_delete
handle_delete-Arrives i id none c = reply-Arrives i id _ c
handle_delete-Arrives i id (some req) c = enqueue-Arrives i (deletes id req) c

pub handle_set_status-Arrives :
    (i id : ℕ) (r : Option SetStatusUserRequest) (c : UserStatusControl)
    → Arrives i id c (handle_set_status id r c)
unfolding handle_set_status
handle_set_status-Arrives i id none c = reply-Arrives i id _ c
handle_set_status-Arrives i id (some req) c = enqueue-Arrives i (sets id req) c
