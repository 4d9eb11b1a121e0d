-- ===== src/Workers/Replay/Laws.antt =====
-- The promises of the replay (cmd/dlq-replay/main.go).
use freshflow.Prelude.{
  ℕ, suc, ◌+◌, ◌-◌, ◌≡◌, refl, sym, ap, ◌∙◌, true, false, none, some, List, [], ◌∷◌, ◌++◌, take,
  take-append, length, length-append, length-take, append_cons, append_nil, append_assoc,
  Option-cases, inl, inr, arith,
}
use mathlib.Core.Path.{subst}
use freshflow.Prelude.Int.{pos_part}
use freshflow.Workers.Replay.{
  Config, Letter, Message, Poll, deadline, failed, fetched, Progress, Env, message_of, count,
  publish, commit, each_record, consume_from, at_start, consume,
}

-- A dry run writes nothing, whatever it reads and however it ends.
each_dry :
    (env : Env) (limit : ℕ) (rs : List Letter) (p : Progress)
    → ((each_record env false limit rs p).1.published ≡ p.published)
      × ((each_record env false limit rs p).1.committed ≡ p.committed)
unfolding each_record
each_dry env limit [] p = (refl, refl)
each_dry env limit (r ∷ rs) p =
    let rest = each_dry env limit rs (count p) in
    elim (Option-cases (message_of env r)) [
      | inl broken ↦ (ground arith, ground arith)
      | inr (m, read) ↦ (ground (arith, rest.0), ground (arith, rest.1))
    ]

from_dry :
    (env : Env) (limit : ℕ) (ps : List Poll) (p : Progress)
    → ((consume_from env false limit ps p).1.published ≡ p.published)
      × ((consume_from env false limit ps p).1.committed ≡ p.committed)
unfolding consume_from
from_dry env limit [] p = (refl, refl)
from_dry env limit (deadline ∷ ps) p = (refl, refl)
from_dry env limit (failed ∷ ps) p = (ground arith, ground arith)
from_dry env limit (fetched rs ∷ ps) p =
    let here = each_dry env limit rs p in
    let rest = from_dry env limit ps (each_record env false limit rs p).1 in
    elim (Option-cases (each_record env false limit rs p).0) [
      | inl went ↦ (ground (arith, here.0, rest.0), ground (arith, here.1, rest.1))
      | inr (f, broke) ↦ (ground (arith, here.0), ground (arith, here.1))
    ]

-- A dry run publishes nothing and commits nothing, whatever it reads and however it ends.
pub dry_run_lem :
    (env : Env) (c : Config) (ps : List Poll)
    → c.execute ≡ false
    → ((consume env c ps).1.published ≡ []) × ((consume env c ps).1.committed ≡ [])
unfolding consume
dry_run_lem env c ps dry = rw dry (from_dry env (pos_part c.limit) ps at_start)

-- The records that the letters stand for.
unfoldable pub messages : Env → List Letter → List Message
messages env [] = []
messages env (r ∷ rs) =
    let rest = messages env rs in elim (message_of env r) [ none ↦ rest | some m ↦ m ∷ rest ]

-- The letters that the polls bring until the time is over.
unfoldable pub letters : List Poll → List Letter
letters [] = []
letters (deadline ∷ ps) = []
letters (failed ∷ ps) = []
letters (fetched rs ∷ ps) = rs ++ letters ps

-- The progress after these letters.
pub record Replayed (env : Env) (p p' : Progress) (rs : List Letter) : Type 0 where
  pub published : p'.published ≡ p.published ++ messages env rs
  pub processed : p'.processed ≡ p.processed + length rs

messages-append :
    (env : Env) (rs rs' : List Letter)
    → messages env (rs ++ rs') ≡ messages env rs ++ messages env rs'
unfolding messages
messages-append env [] rs' = refl
messages-append env (r ∷ rs) rs' =
    let rest = messages-append env rs rs' in
    elim (Option-cases (message_of env r)) [
      | inl broken ↦ ground (arith, rest)
      | inr (m, read) ↦ ground (arith, rest)
    ]

nothing : (env : Env) (p : Progress) → Replayed env p p []
unfolding messages
nothing env p = record { published = append_nil p.published; processed = omega arith }

-- The first letter, and those after it.
one_more :
    (env : Env) (r : Letter) (m : Message) (p p' : Progress) (rs : List Letter)
    → message_of env r ≡ some m
    → Replayed env (count (commit r.offset (publish m p))) p' rs
    → Replayed env p p' (r ∷ rs)
unfolding messages
one_more env r m p p' rs read rest =
    let front : messages env (r ∷ rs) ≡ m ∷ messages env rs = ground (arith, read) in
    record {
      published =
          rest.published
          ∙ append_cons p.published m (messages env rs)
          ∙ ap (λ ms. p.published ++ ms) (sym front);
      processed = omega (arith, rest.processed);
    }

each_replays :
    (env : Env) (limit n : ℕ) (rs : List Letter) (p : Progress)
    → p.processed + n ≡ limit
    → (each_record env true limit rs p).0 ≡ none
    → Replayed env p (each_record env true limit rs p).1 (take n rs)
unfolding each_record
each_replays env limit ℕ.zero [] p room went = nothing env p
each_replays env limit (suc n) [] p room went = nothing env p
each_replays env limit ℕ.zero (r ∷ rs) p room went =
    let same : p ≡ (each_record env true limit (r ∷ rs) p).1 =
      elim (Option-cases (message_of env r)) [
        | inl broken ↦ ground arith
        | inr (m, read) ↦ ground arith
      ] in
    subst (λ q. Replayed env p q []) same (nothing env p)
each_replays env limit (suc n) (r ∷ rs) p room went = elim (Option-cases (message_of env r)) [
  | inl broken ↦ absurd (ground arith)
  | inr (m, read) ↦
      let q = count (commit r.offset (publish m p)) in
      let same : (each_record env true limit rs q).1 ≡ (each_record env true limit (r ∷ rs) p).1 =
        ground arith in
      subst (λ after. Replayed env p after (r ∷ take n rs)) same
        (one_more env r m p (each_record env true limit rs q).1 (take n rs) read
          (each_replays env limit n rs q (omega arith) (ground arith)))
]

-- The progress of one batch and of those after it.
Replayed-trans :
    (env : Env) (p q p' : Progress) (rs rs' : List Letter)
    → Replayed env p q rs
    → Replayed env q p' rs'
    → Replayed env p p' (rs ++ rs')
Replayed-trans env p q p' rs rs' f g = record {
  published =
      g.published
      ∙ ap (λ ms. ms ++ messages env rs') f.published
      ∙ append_assoc p.published (messages env rs) (messages env rs')
      ∙ ap (λ ms. p.published ++ ms) (sym (messages-append env rs rs'));
  processed = omega (arith, f.processed, g.processed, length-append rs rs');
}

take_nil : (n : ℕ) → take {A = Letter} n [] ≡ []
take_nil ℕ.zero = refl
take_nil (suc n) = refl

from_replays :
    (env : Env) (limit n : ℕ) (ps : List Poll) (p : Progress)
    → p.processed + n ≡ limit
    → (consume_from env true limit ps p).0 ≡ none
    → Replayed env p (consume_from env true limit ps p).1 (take n (letters ps))
unfolding consume_from letters
from_replays env limit n [] p room went =
    subst (Replayed env p p) (sym (take_nil n)) (nothing env p)
from_replays env limit n (deadline ∷ ps) p room went =
    subst (Replayed env p p) (sym (take_nil n)) (nothing env p)
from_replays env limit n (failed ∷ ps) p room went =
    let same : p ≡ (consume_from env true limit (failed ∷ ps) p).1 = ground arith in
    subst (λ q. Replayed env p q (take n [])) same
      (subst (Replayed env p p) (sym (take_nil n)) (nothing env p))
from_replays env limit ℕ.zero (fetched rs ∷ ps) p room went =
    let same : p ≡ (consume_from env true limit (fetched rs ∷ ps) p).1 = ground arith in
    subst (λ q. Replayed env p q []) same (nothing env p)
from_replays env limit (suc n) (fetched rs ∷ ps) p room went =
    let q = (each_record env true limit rs p).1 in
    elim (Option-cases (each_record env true limit rs p).0) [
      | inr (f, broke) ↦ absurd (ground arith)
      | inl fine ↦
          let here = each_replays env limit (suc n) rs p room fine in
          let left = suc n - length (take (suc n) rs) in
          let same : (consume_from env true limit ps q).1
              ≡ (consume_from env true limit (fetched rs ∷ ps) p).1 =
            ground arith in
          let room' : q.processed + left ≡ limit =
            omega (arith, here.processed, length-take (suc n) rs) in
          let rest = from_replays env limit left ps q room' (ground arith) in
          subst (λ after. Replayed env p after (take (suc n) (rs ++ letters ps))) same
            (subst (Replayed env p (consume_from env true limit ps q).1)
              (sym (take-append (suc n) rs (letters ps)))
              (Replayed-trans env p q (consume_from env true limit ps q).1 (take (suc n) rs)
                (take left (letters ps)) here rest))
    ]

-- A replay that ends well has published, in order, the originals of the first dead letters of the topic,
-- as many as the limit allows and the time has brought.
pub replay_lem :
    (env : Env) (c : Config) (ps : List Poll)
    → c.execute ≡ true
    → (consume env c ps).0 ≡ none
    → ((consume env c ps).1.published ≡ messages env (take (pos_part c.limit) (letters ps)))
      × ((consume env c ps).1.processed ≡ length (take (pos_part c.limit) (letters ps)))
unfolding consume
replay_lem env c ps real went =
    let r =
      subst
        (λ b.
          (consume_from env b (pos_part c.limit) ps at_start).0 ≡ none
          → Replayed env at_start (consume_from env b (pos_part c.limit) ps at_start).1
              (take (pos_part c.limit) (letters ps)))
        (sym real)
        (from_replays env (pos_part c.limit) (pos_part c.limit) ps at_start (omega arith)) went in
    (r.published, omega (arith, r.processed))
