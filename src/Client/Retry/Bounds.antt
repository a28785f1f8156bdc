-- ===== src/Client/Retry/Bounds.antt =====
-- How often rpcClientWithRetry of client.go tries, and what it returns.
use go_conflux_sdk.Base.{ℕ, zero, suc, ◌<◌, ◌≡◌, refl, ap, ◌∙◌, ◌⊎◌, inl, inr, String, arith}
use go_conflux_sdk.Base.Int.{ℤ, pos, negsuc, pos_part}
use go_conflux_sdk.Errors.{Error, wrapped}
use go_conflux_sdk.Result.{Result, ok, err, panic}
use go_conflux_sdk.Exec.{Exec, on_error}
use go_conflux_sdk.Client.Retry.{pause, batch_loop, retry_batch_call}

module _ {W A : Type 0} (sleep : ℤ → W → W) (interval : ℤ) (attempt : Exec W A) where
  -- Failed k w v: k attempts were made from w, one after another, with a sleep of the interval after each
  -- or without one; all of them failed with an error, and v is the world then.
  pub data Failed : ℕ → W → W → Type 0 where
    nothing_failed : {w : W} → Failed zero w w
    another_failed :
        {k : ℕ} {w v u x : W} (e : Error)
        → attempt w ≡ (err e, v)
        → (u ≡ v) ⊎ (u ≡ sleep interval v)
        → Failed k u x
        → Failed (suc k) w x

  -- The last attempt, after fewer than n that failed, gave r and the world x.
  pub record LastOf (n : ℕ) (w : W) (r : Result A) (x : W) : Type 0 where
    pub made : ℕ
    pub within : made < n
    pub v : W
    pub failed : Failed made w v
    pub last : attempt v ≡ (r, x)

  -- The last attempt, after n - 1 that failed, failed as well, and e is its error, bare or under msg.
  pub record AllFailed (n : ℕ) (msg : String) (w : W) (e : Error) (x : W) : Type 0 where
    pub made : ℕ
    pub all_made : suc made ≡ n
    pub v : W
    pub own : Error
    pub failed : Failed made w v
    pub last : attempt v ≡ (err own, x)
    pub is_own : (e ≡ own) ⊎ (e ≡ wrapped msg own)

  -- What comes of at most n attempts from a world.
  pub record Ended (n : ℕ) (msg : String) (w : W) (o : Result A × W) : Type 0 where
    pub success : (a : A) → o.0 ≡ ok a → LastOf n w (ok a) o.1
    pub failure : (e : Error) → o.0 ≡ err e → AllFailed n msg w e o.1
    pub panicked : o.0 ≡ panic → LastOf n w panic o.1

  same_result : {r q : Result A} {w v : W} → attempt w ≡ (r, v) → r ≡ q → attempt w ≡ (q, v)
  same_result {r} {q} {w} {v} e p = e ∙ ap (λ (t : Result A). (t, v)) p

  first_last :
      (n : ℕ) (w v : W) (r q : Result A) → attempt w ≡ (r, v) → r ≡ q → LastOf (suc n) w q v
  first_last n w v r q e p = record {
    made = 0;
    within = omega arith;
    v = w;
    failed = nothing_failed;
    last = same_result e p;
  }

  -- A single attempt, whose error may get the message.
  once :
      (msg : String) (w : W) (o : Result A × W) (f : Error → Error)
      → attempt w ≡ o
      → ((e : Error) → (f e ≡ e) ⊎ (f e ≡ wrapped msg e))
      → Ended 1 msg w (on_error o λ e w'. (err (f e), w'))
  once msg w (ok a, v) f e h = record {
    success = λ b p. first_last 0 w v (ok a) (ok b) e p;
    failure = λ x p. absurd (cc p);
    panicked = λ p. absurd (cc p);
  }
  once msg w (err x, v) f e h = record {
    success = λ b p. absurd (cc p);
    failure = λ b p.
        let q : b ≡ f x = cc p in
        record {
          made = 0;
          all_made = refl;
          v = w;
          own = x;
          failed = nothing_failed;
          last = e;
          is_own = elim (h x) [ inl r ↦ inl (q ∙ r) | inr r ↦ inr (q ∙ r) ];
        };
    panicked = λ p. absurd (cc p);
  }
  once msg w (panic, v) f e h = record {
    success = λ b p. absurd (cc p);
    failure = λ b p. absurd (cc p);
    panicked = λ p. first_last 0 w v panic panic e p;
  }

  after_failure :
      {n : ℕ} {w v u x : W} {r : Result A} (e : Error)
      → attempt w ≡ (err e, v)
      → (u ≡ v) ⊎ (u ≡ sleep interval v)
      → LastOf n u r x
      → LastOf (suc n) w r x
  after_failure e at slept l = record {
    made = suc l.made;
    within = omega (arith, l.within);
    v = l.v;
    failed = another_failed e at slept l.failed;
    last = l.last;
  }

  -- One more attempt, whose error is followed by the rest.
  again :
      (n : ℕ) (msg : String) (w : W) (o : Result A × W) (rest : Error → Exec W A)
      → attempt w ≡ o
      → ((e : Error) (v : W)
          → (u : W) × ((u ≡ v) ⊎ (u ≡ sleep interval v)) × Ended n msg u (rest e v))
      → Ended (suc n) msg w (on_error o rest)
  again n msg w (ok a, v) rest e h = record {
    success = λ b p. first_last n w v (ok a) (ok b) e p;
    failure = λ x p. absurd (cc p);
    panicked = λ p. absurd (cc p);
  }
  again n msg w (err x, v) rest e h =
      let (u, slept, r) = h x v in
      record {
        success = λ b p. after_failure x e slept (r.success b p);
        failure = λ b p.
            let l = r.failure b p in
            record {
              made = suc l.made;
              all_made = omega (arith, l.all_made);
              v = l.v;
              own = l.own;
              failed = another_failed x e slept l.failed;
              last = l.last;
              is_own = l.is_own;
            };
        panicked = λ p. after_failure x e slept (r.panicked p);
      }
  again n msg w (panic, v) rest e h = record {
    success = λ b p. absurd (cc p);
    failure = λ b p. absurd (cc p);
    panicked = λ p. first_last n w v panic panic e p;
  }

  abbrev call_timeout : String
  call_timeout = "timeout when call %v with args %v"

  abbrev batch_timeout : String
  batch_timeout = "timeout when batch call %+v"

  pause_slept : (i : ℤ) (v : W) → (pause sleep i v ≡ v) ⊎ (pause sleep i v ≡ sleep i v)
  unfolding pause
  pause_slept (pos zero) v = inl refl
  pause_slept (pos (suc n)) v = inr refl
  pause_slept (negsuc n) v = inl refl

  batch_loop-Ended :
      (n : ℕ) (w : W) → Ended (suc n) batch_timeout w (batch_loop sleep interval attempt n w)
  unfolding batch_loop
  batch_loop-Ended (suc n) w =
      again (suc n) _ w (attempt w) _ refl λ e v. (_, pause_slept interval v, batch_loop-Ended n _)
  batch_loop-Ended zero w = once _ w (attempt w) _ refl (λ e. inr refl)

  -- BatchCall, which is written another way, makes at most retryCount + 1 attempts, one if the count is
  -- not positive, each after the one before has failed. A success or a panic is that of the last attempt;
  -- an error means that all of them were made and failed, and it is the last one's, bare or under the
  -- message of the timeout.
  pub retry_batch_call-Ended :
      (r : ℤ) (w : W)
      → Ended (suc (pos_part r)) batch_timeout w (retry_batch_call sleep interval attempt r w)
  unfolding retry_batch_call
  retry_batch_call-Ended (pos (suc n)) w =
      again (suc n) _ w (attempt w) _ refl λ e v. (_, inl refl, batch_loop-Ended n _)
  retry_batch_call-Ended (pos zero) w = once _ w (attempt w) _ refl (λ e. inl refl)
  retry_batch_call-Ended (negsuc n) w = once _ w (attempt w) _ refl (λ e. inl refl)
