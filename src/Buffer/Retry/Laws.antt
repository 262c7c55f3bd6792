-- ===== src/Buffer/Retry/Laws.antt =====
-- How often a batch is tried and stored.
use ztelem.Prelude.{
  ℕ, zero, suc, ◌+◌, ◌≤◌, ◌<◌, Bool, Bytes, Option, none, some, ◌≡◌, ◌≢◌, refl, arith, ℤ, pos_part,
  is_some, if◌then◌else◌, ◌⊎◌, inl, inr,
}
use ztelem.Config.{DatabaseWriterConfig}
use ztelem.Buffer.Retry.{
  Outcome, succeeded, failed, timed_out, insert_error, write_timeout, LastErr, Written, retry_loop,
  write_with_retry,
}

-- One of the `n` calls from `call` on succeeds.
abbrev pub Succeeds : (ℕ → Outcome) → ℕ → ℕ → Type 0
Succeeds db call zero = ⊥
Succeeds db call (suc n) = (db call ≡ succeeded) ⊎ Succeeds db (suc call) n

pub Succeeds-first :
    (db : ℕ → Outcome) (call n : ℕ) → 0 < n → db call ≡ succeeded → Succeeds db call n
Succeeds-first db call zero h e = absurd (omega arith)
Succeeds-first db call (suc n) h e = inl e

-- None of the `n` calls from `call` on is answered after its deadline.
abbrev pub InTime : (ℕ → Outcome) → ℕ → ℕ → Type 0
InTime db call zero = Unit
InTime db call (suc n) = ((b : Bool) → db call ≢ timed_out b) × InTime db (suc call) n

Outcome-cases :
    (o : Outcome)
    → (o ≡ succeeded) ⊎ (((e : Bytes) × (o ≡ failed e)) ⊎ ((b : Bool) × (o ≡ timed_out b)))
Outcome-cases succeeded = inl refl
Outcome-cases (failed e) = inr (inl (e, refl))
Outcome-cases (timed_out b) = inr (inr (b, refl))

-- What `n` attempts from the call `call` on come to, with `c` copies stored before them.
pub record Tried (db : ℕ → Outcome) (n call c : ℕ) (w : Written) : Type 0 where
  pub sound : w.error ≡ none → Succeeds db call n
  pub complete : Succeeds db call n → w.error ≡ none
  pub calls_made : call ≤ w.next_call
  pub calls_bound : w.next_call ≤ call + n
  pub copies_kept : c ≤ w.copies
  pub copies_bound : w.copies + call ≤ c + w.next_call
  pub stored : w.error ≡ none → c + 1 ≤ w.copies
  pub once : InTime db call n → w.copies ≡ (if is_some w.error then c else c + 1)

failed_first :
    (db : ℕ → Outcome) (n call c : ℕ) (x : Bytes) {w : Written}
    → db call ≡ failed x
    → Tried db n (suc call) c w
    → Tried db (suc n) call c w
failed_first db n call c x e t = record {
  sound = λ q. inr (t.sound q);
  complete = λ h. elim h [ inl s ↦ cc | inr s ↦ t.complete s ];
  calls_made = omega arith;
  calls_bound = omega arith;
  copies_kept = t.copies_kept;
  copies_bound = omega arith;
  stored = t.stored;
  once = λ h. t.once h.1;
}

late_first :
    (db : ℕ → Outcome) (n call c : ℕ) (b : Bool) {w : Written}
    → db call ≡ timed_out b
    → Tried db n (suc call) (if b then suc c else c) w
    → Tried db (suc n) call c w
late_first db n call c b e t = record {
  sound = λ q. inr (t.sound q);
  complete = λ h. elim h [ inl s ↦ cc | inr s ↦ t.complete s ];
  calls_made = omega (arith, t.calls_made);
  calls_bound = omega (arith, t.calls_bound);
  copies_kept = ground (arith, t.copies_kept);
  copies_bound = ground (arith, t.copies_bound);
  stored = λ q. ground (arith, t.stored q);
  once = λ h. absurd (h.0 b e);
}

retry_loop-Tried :
    (db : ℕ → Outcome) (a : ℤ) (n call : ℕ) (l : Option LastErr) (c : ℕ)
    → Tried db n call c (retry_loop db a n call l c)
unfolding retry_loop
retry_loop-Tried db a zero call l c = record {
  sound = λ e. cc;
  complete = λ h. absurd h;
  calls_made = omega arith;
  calls_bound = omega arith;
  copies_kept = omega arith;
  copies_bound = omega arith;
  stored = λ e. cc;
  once = λ h. refl;
}
retry_loop-Tried db a (suc n) call l c = elim (Outcome-cases (db call)) [
  | inl e ↦
      rw (e, retry_loop)
        (record {
          sound = λ q. inl e;
          complete = λ h. refl;
          calls_made = omega arith;
          calls_bound = omega arith;
          copies_kept = omega arith;
          copies_bound = omega arith;
          stored = λ q. omega arith;
          once = λ h. omega arith;
        })
  | inr (inl (x, e)) ↦
      rw (e, retry_loop)
        (failed_first db n call c x e
          (retry_loop-Tried db a n (suc call) (some (insert_error x)) c))
  | inr (inr (b, e)) ↦
      rw (e, retry_loop)
        (late_first db n call c b e
          (retry_loop-Tried db a n (suc call) (some write_timeout) (if b then suc c else c)))
]

pub write_with_retry-Tried :
    (cfg : DatabaseWriterConfig) (db : ℕ → Outcome) (call : ℕ)
    → Tried db (pos_part cfg.retry_attempts) call 0 (write_with_retry cfg db call)
unfolding write_with_retry
write_with_retry-Tried cfg db call =
    retry_loop-Tried db cfg.retry_attempts (pos_part cfg.retry_attempts) call none 0
