-- ===== src/Gateway/Receive.antt =====
-- The loop of `Queue.receive` in gateway.py, key by key: which messages a batch holds and what the
-- queue holds afterwards.
use system_design_course.Common.{
  length, In, All, Text, text_eq_iff, Dict, lookup, erase, UniqueKeys, ℕ, ◌+◌, ◌-◌, ◌≤◌, min, ◌≡◌,
  refl, sym, ap, ◌⊎◌, inl, inr, none, some, [], ◌∷◌, arith,
}
use system_design_course.Gateway.Queue.{
  Settings, Message, take_message, receive_loop, count_visible,
}

-- Each message is stored under its own id.
abbrev pub IsKeyed : Dict Message → Type 0
IsKeyed = All (λ (e : Text × Message). e.1.message_id ≡ e.0)

pub erase-IsKeyed : (k : Text) (d : Dict Message) → IsKeyed d → IsKeyed (erase k d)
unfolding erase
erase-IsKeyed k [] h = tt
erase-IsKeyed k ((j, m) ∷ d) h = ground (arith, erase-IsKeyed k d h.1)

-- The message found under a key carries it as its id.
pub lookup-IsKeyed :
    (k : Text) (m : Message) (d : Dict Message) → IsKeyed d → lookup k d ≡ some m → m.message_id ≡ k
unfolding lookup
lookup-IsKeyed k m [] h e = cc
lookup-IsKeyed k m ((j, x) ∷ d) h e = ground (arith, lookup-IsKeyed k m d h.1, text_eq_iff j k)

module _ (cfg : Settings) (now now_ms limit : ℕ) where
  -- A batch holds as many of the visible messages as the limit allows.
  pub length-receive_loop :
      (taken : ℕ) (d : Dict Message)
      → length (receive_loop cfg now now_ms limit taken d).0
        ≡ min (limit - taken) (count_visible now d)
  unfolding receive_loop
  length-receive_loop taken [] = omega arith
  length-receive_loop taken ((key, m) ∷ d) =
      ground (arith, length-receive_loop taken d, length-receive_loop (taken + 1) d)

  -- Every message of a batch was visible, and is hidden until the visibility timeout has passed.
  pub receive_loop-hides :
      (taken : ℕ) (d : Dict Message)
      → All
          (λ m. m.visible_at ≡ now + cfg.visibility_timeout)
          (receive_loop cfg now now_ms limit taken d).0
  unfolding receive_loop take_message
  receive_loop-hides taken [] = tt
  receive_loop-hides taken ((key, m) ∷ d) =
      ground (arith, receive_loop-hides taken d, receive_loop-hides (taken + 1) d)

  loop_missing :
      (k : Text) (taken : ℕ) (d : Dict Message)
      → lookup k d ≡ none
      → lookup k (receive_loop cfg now now_ms limit taken d).1 ≡ none
  unfolding receive_loop lookup
  loop_missing k taken [] h = refl
  loop_missing k taken ((key, m) ∷ d) h =
      ground (arith, loop_missing k taken d, loop_missing k (taken + 1) d)

  pub receive_loop-UniqueKeys :
      (taken : ℕ) (d : Dict Message)
      → UniqueKeys d
      → UniqueKeys (receive_loop cfg now now_ms limit taken d).1
  unfolding receive_loop
  receive_loop-UniqueKeys taken [] h = tt
  receive_loop-UniqueKeys taken ((key, m) ∷ d) h = ground (
    arith,
    receive_loop-UniqueKeys taken d h.1,
    receive_loop-UniqueKeys (taken + 1) d h.1,
    loop_missing key taken d,
    loop_missing key (taken + 1) d,
  )

  pub receive_loop-IsKeyed :
      (taken : ℕ) (d : Dict Message)
      → IsKeyed d
      → IsKeyed (receive_loop cfg now now_ms limit taken d).1
  unfolding receive_loop take_message
  receive_loop-IsKeyed taken [] h = tt
  receive_loop-IsKeyed taken ((key, m) ∷ d) h =
      ground (arith, receive_loop-IsKeyed taken d h.1, receive_loop-IsKeyed (taken + 1) d h.1)

  pub length-receive_loop_messages :
      (taken : ℕ) (d : Dict Message)
      → length (receive_loop cfg now now_ms limit taken d).1 ≡ length d
  unfolding receive_loop
  length-receive_loop_messages taken [] = refl
  length-receive_loop_messages taken ((key, m) ∷ d) =
      ground
        (arith, length-receive_loop_messages taken d, length-receive_loop_messages (taken + 1) d)

  -- A message of the queue afterwards was there before, or is in the batch.
  pub loop_origin :
      (k : Text) (m' : Message) (taken : ℕ) (d : Dict Message)
      → lookup k (receive_loop cfg now now_ms limit taken d).1 ≡ some m'
      → (lookup k d ≡ some m') ⊎ In m' (receive_loop cfg now now_ms limit taken d).0
  unfolding receive_loop lookup
  loop_origin k m' taken [] h = inl h
  loop_origin k m' taken ((key, m) ∷ d) h =
      ground (arith, loop_origin k m' taken d, loop_origin k m' (taken + 1) d)

  loop_cases :
      (m' : Message) (taken : ℕ) (key : Text) (m : Message) (d : Dict Message)
      → In m' (receive_loop cfg now now_ms limit taken ((key, m) ∷ d)).0
      → ((m.visible_at ≤ now) × (take_message cfg now now_ms m ≡ m'))
        ⊎ (In m' (receive_loop cfg now now_ms limit taken d).0
            ⊎ In m' (receive_loop cfg now now_ms limit (taken + 1) d).0)
  unfolding receive_loop
  loop_cases m' taken key m d h = ground arith

  lookup_past :
      (key k : Text) (m x : Message) (d : Dict Message)
      → lookup key d ≡ none
      → lookup k d ≡ some x
      → lookup k ((key, m) ∷ d) ≡ some x
  unfolding lookup
  lookup_past key k m x d h e = ground (arith, text_eq_iff key k)

  here :
      (key : Text) (m m' : Message) (d : Dict Message)
      → (take_message cfg now now_ms m).message_id ≡ m'.message_id
      → m.message_id ≡ key
      → lookup m'.message_id ((key, m) ∷ d) ≡ some m
  unfolding lookup take_message
  here key m m' d e k = ground (arith, text_eq_iff key m'.message_id)

  -- The message of the queue that a message of the batch is a copy of.
  pub loop_source :
      (m' : Message) (taken : ℕ) (d : Dict Message)
      → UniqueKeys d
      → IsKeyed d
      → In m' (receive_loop cfg now now_ms limit taken d).0
      → (m : Message) × (lookup m'.message_id d ≡ some m)
        × (m.visible_at ≤ now)
        × (m' ≡ take_message cfg now now_ms m)
  unfolding receive_loop
  loop_source m' taken [] u k h = absurd h
  loop_source m' taken ((key, m) ∷ d) u k h = elim (loop_cases m' taken key m d h) [
    | inl (visible, e) ↦
        (m, here key m m' d (ap (λ (x : Message). x.message_id) e) k.0, visible, sym e)
    | inr (inl later) ↦
        let (x, found, visible, e) = loop_source m' taken d u.1 k.1 later in
        (x, lookup_past key m'.message_id m x d u.0 found, visible, e)
    | inr (inr later) ↦
        let (x, found, visible, e) = loop_source m' (taken + 1) d u.1 k.1 later in
        (x, lookup_past key m'.message_id m x d u.0 found, visible, e)
  ]

  -- A message of the batch is what the queue holds under its id afterwards.
  pub loop_stored :
      (m' : Message) (taken : ℕ) (d : Dict Message)
      → UniqueKeys d
      → IsKeyed d
      → In m' (receive_loop cfg now now_ms limit taken d).0
      → lookup m'.message_id (receive_loop cfg now now_ms limit taken d).1 ≡ some m'
  unfolding receive_loop lookup take_message
  loop_stored m' taken [] u k h = absurd h
  loop_stored m' taken ((key, m) ∷ d) u k h = ground (
    arith,
    loop_stored m' taken d u.1 k.1,
    loop_stored m' (taken + 1) d u.1 k.1,
    text_eq_iff key m'.message_id,
    loop_missing key taken d,
    loop_missing key (taken + 1) d,
  )
