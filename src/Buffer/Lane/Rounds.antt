-- ===== src/Buffer/Lane/Rounds.antt =====
-- The rounds of a flush, and what they come to.
use ztelem.Prelude.{
  ℕ, zero, suc, ◌+◌, ◌-◌, ◌≤◌, ◌<◌, min, List, [], ◌++◌, Option, none, some, ◌≡◌, ◌≢◌, refl, sym,
  ap, ◌∙◌, arith, ltb, length, take, drop, drop-drop, drop_all, ◌⊎◌, take-append-drop, length-drop,
  append_assoc, Bool-cases, Option-cases, inl, inr,
}
use ztelem.Config.{DatabaseWriterConfig}
use ztelem.Buffer.Retry.{Outcome, WriteError, write_with_retry}
use ztelem.Buffer.Lane.{
  Progress, Environment, Flushed, returned, send, wrote, run_writers, slice, slice_end, flush_loop,
  channel_capacity,
}
use ztelem.Buffer.Lane.Delivery.{
  Moved, Moved-refl, Moved-trans, send-Moved, wrote-Moved, failed-Moved, run_writers-Moved,
  write-Landed,
}

module _ {ℓ} {V : Type ℓ} where
  -- The flush returns. `metrics` fall into those that were handed on and those that are lost: none if no
  -- error is returned, and at least one if one is. Those that are handed on are kept.
  pub record Delivers (db : ℕ → Outcome) (metrics : List V) (before : Progress V) (r : Flushed V)
      : Type ℓ where
    pub err : Option WriteError
    pub after : Progress V
    pub returns : r ≡ returned err after
    pub handed : List V
    pub lost : List V
    pub split : metrics ≡ handed ++ lost
    pub moved : Moved db before after handed
    pub complete : err ≡ none → lost ≡ []
    pub incomplete : err ≢ none → lost ≢ []

  Delivers-extend :
      (db : ℕ → Outcome) (xs b rest : List V) (before middle : Progress V) {r : Flushed V}
      → xs ≡ b ++ rest
      → Moved db before middle b
      → Delivers db rest middle r
      → Delivers db xs before r
  Delivers-extend db xs b rest before middle e m d = record {
    err = d.err;
    after = d.after;
    returns = d.returns;
    handed = b ++ d.handed;
    lost = d.lost;
    split = rw (e, append_assoc) (ap (λ t. b ++ t) d.split);
    moved = Moved-trans db before middle d.after b d.handed m d.moved;
    complete = d.complete;
    incomplete = d.incomplete;
  }

  drop_beyond :
      (m n : ℕ) (xs : List V)
      → (m ≡ n) ⊎ ((length xs ≤ m) × (length xs ≤ n))
      → drop m xs ≡ drop n xs
  drop_beyond m n xs (inl e) = ap (λ k. drop k xs) e
  drop_beyond m n xs (inr (p, q)) = drop_all m xs p ∙ sym (drop_all n xs q)

  slice-append-drop :
      (i n : ℕ) (metrics : List V)
      → i < length metrics
      → drop i metrics ≡ slice i (slice_end i n metrics) metrics ++ drop (i + n) metrics
  unfolding slice slice_end
  slice-append-drop i n metrics h =
      let k = min (i + n) (length metrics) - i in
      sym (take-append-drop k (drop i metrics))
      ∙ ap (λ t. take k (drop i metrics) ++ t)
          (drop-drop i k metrics ∙ drop_beyond (i + k) (i + n) metrics (ground arith))

  pub Delivers-stop :
      (db : ℕ → Outcome) (metrics : List V) (i : ℕ) (p : Progress V)
      → length metrics ≤ i
      → Delivers db (drop i metrics) p (returned none p)
  Delivers-stop db metrics i p h = record {
    err = none;
    after = p;
    returns = refl;
    handed = [];
    lost = [];
    split = drop_all i metrics h;
    moved = Moved-refl db p;
    complete = λ e. refl;
    incomplete = λ e. absurd (e refl);
  }

  Delivers-error :
      (db : ℕ → Outcome) (metrics : List V) (i : ℕ) (before after : Progress V) (err : WriteError)
      → i < length metrics
      → Moved db before after []
      → Delivers db (drop i metrics) before (returned (some err) after)
  Delivers-error db metrics i before after err h m = record {
    err = some err;
    after = after;
    returns = refl;
    handed = [];
    lost = drop i metrics;
    split = refl;
    moved = m;
    complete = λ e. cc;
    incomplete = λ _ e. absurd (omega (arith, ap length e, length-drop i metrics));
  }

  pub flush_loop-Delivers :
      (fuel : ℕ) (cfg : DatabaseWriterConfig) (env : Environment) (b : ℕ) (metrics : List V)
      (i j : ℕ) (p : Progress V)
      → length metrics - i < fuel
      → Delivers env.db (drop i metrics) p (flush_loop fuel cfg env (suc b) metrics i j p)
  unfolding flush_loop
  flush_loop-Delivers zero cfg env b metrics i j p h = absurd (omega arith)
  flush_loop-Delivers (suc fuel) cfg env b metrics i j p h =
      let db = env.db in
      let end = slice_end i (suc b) metrics in
      let batch = slice i end metrics in
      let rest = drop (i + suc b) metrics in
      let meanwhile = run_writers cfg db (env.writers j) p in
      let first = run_writers-Moved cfg db (env.writers j) p in
      let result = write_with_retry cfg db meanwhile.next_call in
      let landed = write-Landed cfg db meanwhile.next_call in
      elim (Bool-cases (ltb i (length metrics))) [
        | inr e ↦ rw (e, flush_loop) (Delivers-stop db metrics i p (ground arith))
        | inl e ↦
            let lt : i < length metrics = ground arith in
            let less : length metrics - (i + suc b) < fuel = omega arith in
            let cut = slice-append-drop i (suc b) metrics lt in
            elim (Bool-cases (ltb (length meanwhile.lane.channel) channel_capacity)) [
              | inl room ↦
                  let sent = send batch meanwhile in
                  rw (e, room, flush_loop)
                    (Delivers-extend db (drop i metrics) batch rest p sent cut
                      (Moved-trans db p meanwhile sent [] batch first
                        (send-Moved db batch meanwhile))
                      (flush_loop-Delivers fuel cfg env b metrics (i + suc b) (suc j) sent less))
              | inr full ↦
                  let done = wrote result batch meanwhile in
                  elim (Option-cases result.error) [
                    | inr (err, q) ↦
                        rw (e, full, q, flush_loop)
                          (Delivers-error db metrics i p done err lt (
                            Moved-trans db p meanwhile done [] [] first
                              (failed-Moved db result batch meanwhile err landed q)))
                    | inl q ↦
                        rw (e, full, q, flush_loop)
                          (Delivers-extend db (drop i metrics) batch rest p done cut
                            (Moved-trans db p meanwhile done [] batch first
                              (wrote-Moved db result batch meanwhile landed q))
                            (flush_loop-Delivers fuel cfg env b metrics (i + suc b) (suc j) done
                              less))
                  ]
            ]
      ]
