-- ===== src/Redis/Server/Refines.antt =====
-- The strings that RedisHandler::command reads and writes, through retries and lost replies.
use push_system.Common.{
  ℕ, zero, suc, ◌<◌, ◌≡◌, refl, ap, ◌∙◌, List, [], ◌∷◌, Option, none, some, inl, inr, ◌⊎◌, Bool,
  true, false, Bool-cases, ==_iff, arith, Text, text_eq, length,
}
use mathlib.Core.Path.{subst, ap₂}
use push_system.Producer.Bitmap.Selected.{bit_of, get_range}
use push_system.Redis.{Reply, Command, del, rename, bitop_and, getrange, setrange}
use push_system.Redis.Handler.{Hiredis, RedisHandler, command}
use push_system.Redis.Strings.{Strings, writes, overwrite, set_in_all}
use push_system.Redis.Attempts.{Survives, Ends, EndsIf, no_reply, command-Ends}
use push_system.Redis.Server.{ServerStrings, handler_client}

overwrite_again :
    (offset : ℕ) (bytes old : List ℕ)
    → overwrite offset bytes (overwrite offset bytes old) ≡ overwrite offset bytes old
overwrite_again zero [] old = refl
overwrite_again zero (b ∷ bytes) [] = ap (λ rest. b ∷ rest) (overwrite_again zero bytes [])
overwrite_again zero (b ∷ bytes) (a ∷ old) = ap (λ rest. b ∷ rest) (overwrite_again zero bytes old)
overwrite_again (suc offset) bytes [] = ap (λ rest. 0 ∷ rest) (overwrite_again offset bytes [])
overwrite_again (suc offset) bytes (a ∷ old) =
    ap (λ rest. a ∷ rest) (overwrite_again offset bytes old)

overwrite-once :
    (offset : ℕ) (bytes old now : List ℕ)
    → (now ≡ old) ⊎ (now ≡ overwrite offset bytes old)
    → overwrite offset bytes now ≡ overwrite offset bytes old
overwrite-once offset bytes old now (inl e) = ap (overwrite offset bytes) e
overwrite-once offset bytes old now (inr e) =
    ap (overwrite offset bytes) e ∙ overwrite_again offset bytes old

module _ {H : Type 0} (hiredis : Hiredis H) (c : Command) (P : H → Type 0)
    (s : Survives hiredis c P) where
  as_client :
      (h : RedisHandler H)
      → P h.net
      → (o : Option (RedisHandler H × Option Reply)) → EndsIf hiredis c P s o
      → Ends hiredis c P (elim o [ none ↦ (h, none) | some r ↦ r ])
  as_client h p none e = no_reply hiredis c P s h p
  as_client h p (some r) e = e

  client-Ends :
      (h : RedisHandler H) → P h.net → Ends hiredis c P ((handler_client hiredis).command c h)
  client-Ends h p = as_client h p (command hiredis c h) (command-Ends hiredis c P s h p)

module _ {H : Type 0} (hiredis : Hiredis H) (value : H → Text → List ℕ)
    (laws : ServerStrings hiredis value) where
  others-Survives :
      (c : Command) (key : Text) (s : List ℕ)
      → writes c key ≡ false
      → Survives hiredis c (λ x. value x key ≡ s)
  others-Survives c key s w = record {
    connects = λ x p. laws.connected x key ∙ p;
    frees = λ x p. laws.freed x key ∙ p;
    tries = λ x p. laws.others c x key w ∙ p;
  }

  any-Survives : (c : Command) → Survives hiredis c (λ x. Unit)
  any-Survives c = record { connects = λ x p. tt; frees = λ x p. tt; tries = λ x p. tt }

  setrange-Survives :
      (key : Text) (offset : ℕ) (bytes s : List ℕ)
      → 0 < length bytes
      → Survives hiredis
          (setrange key offset bytes)
          (λ x. (value x key ≡ s) ⊎ (value x key ≡ overwrite offset bytes s))
  setrange-Survives key offset bytes s l = record {
    connects = λ x p. rw (laws.connected x key) p;
    frees = λ x p. rw (laws.freed x key) p;
    tries = λ x p. elim (laws.overwritten_or_not key offset bytes x l) [
      | inl e ↦ rw e p
      | inr e ↦ inr (e ∙ overwrite-once offset bytes s (value x key) p)
    ];
  }

  rename-Survives :
      (from to : Text) (a b : List ℕ)
      → Survives hiredis
          (rename from to)
          (λ x. ((value x to ≡ b) × (value x from ≡ a)) ⊎ ((value x to ≡ a) × (value x from ≡ [])))
  rename-Survives from to a b = record {
    connects = λ x p. rw (laws.connected x to, laws.connected x from) p;
    frees = λ x p. rw (laws.freed x to, laws.freed x from) p;
    tries = tries;
  }
    where
      tries :
          (x : H)
          → ((value x to ≡ b) × (value x from ≡ a)) ⊎ ((value x to ≡ a) × (value x from ≡ []))
          → (let y = (hiredis.redis_command (rename from to) x).0 in
              ((value y to ≡ b) × (value y from ≡ a)) ⊎ ((value y to ≡ a) × (value y from ≡ [])))
      tries x (inl p) = elim (laws.moved from to x) [
        | inl e ↦ inl (e.0 ∙ p.0, e.1 ∙ p.1)
        | inr e ↦ inr (e.0 ∙ p.1, e.1)
      ]
      tries x (inr p) = elim (laws.moved from to x) [
        | inl e ↦ inr (e.0 ∙ p.0, e.1 ∙ p.1)
        | inr e ↦ inr (laws.not_moved from to x p.1 ∙ p.0, e.1)
      ]

text_eq_refl : (t : Text) → text_eq t t ≡ true
text_eq_refl [] = refl
text_eq_refl (c ∷ t) = ground (arith, text_eq_refl t)

text_eq_sound : (s t : Text) → text_eq s t ≡ true → s ≡ t
text_eq_sound [] [] h = refl
text_eq_sound [] (b ∷ t) h = absurd (ground arith)
text_eq_sound (a ∷ s) [] h = absurd (ground arith)
text_eq_sound (a ∷ s) (b ∷ t) h =
    let same : a ≡ b = ground (arith, ==_iff a b) in
    ap₂ (λ x xs. x ∷ xs) same (text_eq_sound s t (ground arith))

-- The strings of `b` are those of `a`, up to one, in which a bit may be that of all of them.
all_again :
    (a b : Text → List ℕ) (u : ℕ) (all : Bool)
    → ((key : Text) → (bit_of (b key) u ≡ bit_of (a key) u) ⊎ (bit_of (b key) u ≡ all))
    → (first : Text) (keys : List Text) → set_in_all a first keys u ≡ all
    → set_in_all b first keys u ≡ all
all_again a b u true e first [] h = ground (arith, e first)
all_again a b u true e first (key ∷ keys) h =
    ground (arith, e first, all_again a b u true e key keys (ground arith))
all_again a b u false e first [] h = ground (arith, e first)
all_again a b u false e first (key ∷ keys) h = elim (Bool-cases (bit_of (a first) u)) [
  | inl t ↦ ground (arith, e first, all_again a b u false e key keys (ground arith))
  | inr f ↦ ground (arith, e first)
]

module _ {H : Type 0} (hiredis : Hiredis H) (value : H → Text → List ℕ)
    (laws : ServerStrings hiredis value) where
  -- Before and after a BITOP AND that was done or not.
  abbrev Anded : (target first : Text) (keys : List Text) → (u : ℕ) → (Text → List ℕ) → H → Type 0
  Anded target first keys u v x =
      (key : Text)
      → (bit_of (value x key) u ≡ bit_of (v key) u)
        ⊎ ((text_eq target key ≡ true) × (bit_of (value x key) u ≡ set_in_all v first keys u))

  Anded-all :
      (target first : Text) (keys : List Text) (u : ℕ) (v : Text → List ℕ) (x : H)
      → Anded target first keys u v x
      → set_in_all (value x) first keys u ≡ set_in_all v first keys u
  Anded-all target first keys u v x p =
      all_again v (value x) u (set_in_all v first keys u)
        (λ key. elim (p key) [ inl e ↦ inl e | inr e ↦ inr e.1 ]) first keys refl

  bitop_and-Survives :
      (target first : Text) (keys : List Text) (u : ℕ) (v : Text → List ℕ)
      → Survives hiredis (bitop_and target (first ∷ keys)) (Anded target first keys u v)
  bitop_and-Survives target first keys u v = record {
    connects = λ x p key. rw (laws.connected x key) (p key);
    frees = λ x p key. rw (laws.freed x key) (p key);
    tries = tries;
  }
    where
      tries :
          (x : H)
          → Anded target first keys u v x
          → Anded target first keys u v
              (hiredis.redis_command (bitop_and target (first ∷ keys)) x).0
      tries x p key = elim (Bool-cases (text_eq target key)) [
        | inr other ↦ rw (laws.others (bitop_and target (first ∷ keys)) x key other) (p key)
        | inl this ↦
            subst
              (λ k.
                (bit_of (value (hiredis.redis_command (bitop_and target (first ∷ keys)) x).0 k) u
                  ≡ bit_of (v k) u)
                ⊎ ((text_eq target k ≡ true)
                    × (bit_of
                          (value (hiredis.redis_command (bitop_and target (first ∷ keys)) x).0 k) u
                        ≡ set_in_all v first keys u)))
              (text_eq_sound target key this)
              (elim (laws.anded_or_not target first keys x u) [
                | inl e ↦ rw e (p target)
                | inr e ↦ inr (text_eq_refl target, e ∙ Anded-all target first keys u v x p)
              ])
      ]

  -- If an attempt of SETRANGE, BITOP AND or RENAME is done whole or not at all, whether or not its
  -- reply is lost, if one of DEL, SETRANGE, BITOP AND or GETRANGE that is answered without an
  -- error has been done, if a RENAME takes its source away and without a source does nothing, and
  -- if no string changes when a connection is made or freed, nor one that the command does not
  -- write, then a RedisHandler, with its three attempts and its reconnecting between them, obeys
  -- the laws that the updater and the producers rely on: after a DEL, SETRANGE or BITOP AND for
  -- which it returns a reply, the string at the key is that of doing the command once on what was
  -- there before, however often it was sent, a GETRANGE for which it returns a reply gives the
  -- bytes of the string, a RENAME leaves at its target what was there or what was at its source,
  -- and a string that the command does not write stays as it was.
  pub handler_client-Strings : Strings (handler_client hiredis) (λ h. value h.net)
  handler_client-Strings = record {
    others = λ c h key w.
        (client-Ends hiredis c _ (others-Survives hiredis value laws c key (value h.net key) w) h
          refl).kept;
    cleared = λ key h reply e.
        let l =
          (client-Ends hiredis (del key) _ (any-Survives hiredis value laws (del key)) h tt).last
            reply e in
        subst (λ x. value x key ≡ []) l.after (laws.cleared key l.before reply l.replied l.done);
    overwritten = λ key offset bytes h reply l e.
        let sent =
          (client-Ends hiredis (setrange key offset bytes) _
              (setrange-Survives hiredis value laws key offset bytes (value h.net key) l) h
              (inl refl)).last
            reply e in
        subst (λ x. value x key ≡ overwrite offset bytes (value h.net key)) sent.after
          (laws.overwritten key offset bytes sent.before reply l sent.replied sent.done
            ∙ overwrite-once offset bytes (value h.net key) (value sent.before key) sent.holds);
    anded = λ target first keys h reply u e.
        let sent =
          (client-Ends hiredis (bitop_and target (first ∷ keys)) _
              (bitop_and-Survives target first keys u (value h.net)) h (λ key. inl refl)).last
            reply e in
        subst (λ x. bit_of (value x target) u ≡ set_in_all (value h.net) first keys u) sent.after
          (laws.anded target first keys sent.before reply u sent.replied sent.done
            ∙ Anded-all target first keys u (value h.net) sent.before sent.holds);
    read = λ key first last h reply l e.
        let sent =
          (client-Ends hiredis (getrange key first last) _
              (others-Survives hiredis value laws (getrange key first last) key (value h.net key)
                refl)
              h refl).last
            reply e in
        laws.read key first last sent.before reply l sent.replied sent.done
        ∙ ap (get_range first last) sent.holds;
    renamed = λ from to h.
        elim (client-Ends hiredis (rename from to) _
          (rename-Survives hiredis value laws from to (value h.net from) (value h.net to)) h
          (inl (refl, refl))).kept [ inl p ↦ inl p.0 | inr p ↦ inr p.0 ];
  }
