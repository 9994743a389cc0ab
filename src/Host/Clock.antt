-- ===== src/Host/Clock.antt =====
-- The clock of a host, and steps that it may be read before and after.
use esxi_mover.Prelude.{ℕ, suc, ◌+◌, ◌*◌, ◌≤◌, ◌≡◌, false, ltb, arith}
use esxi_mover.Prelude.Text.{Text}
use esxi_mover.Types.{Reply, got, lost}
use esxi_mover.Job.{State, Job, Phase}
use esxi_mover.Host.{Call, Host, St, ok, of_reply, call, update, modify, phase, try}
use esxi_mover.Host.Hoare.{Keeps}
use esxi_mover.Host.Carry.{WithValue, caught-WithValue}
use esxi_mover.Host.From.{From}
use esxi_mover.Host.Tasks.{Watches}

-- The clock of a host: no call sets it back, and a pause that was not broken off lasts as long as
-- was asked for.
pub record Ticking {W : Type 0} (host : Host W) : Type 0 where
  pub forward : (w : W) (c : Call) → host.clock w ≤ host.clock (host.ask w c).1
  pub pauses :
      (w : W) (d : ℕ)
      → (host.ask w (Call.pause d)).0 ≡ got tt
      → host.clock w + d ≤ host.clock (host.ask w (Call.pause d)).1

pub le_trans : {a b c : ℕ} → a ≤ b → b ≤ c → a ≤ c
le_trans h k = omega arith

pub add_le : {a : ℕ} (c d : ℕ) → c ≤ a → c + d ≤ a + d
add_le c d h = omega arith

pub none_left : (c deadline p : ℕ) → deadline ≤ c + 0 * p → ltb c deadline ≡ false
none_left c deadline p h = ground arith

pub one_less :
    (c m deadline p : ℕ) {c' : ℕ} → deadline ≤ c + suc m * p → c + p ≤ c' → deadline ≤ c' + m * p
one_less c m deadline p h k = omega arith

pub add_left : (c a b : ℕ) → a ≤ b → c + a ≤ c + b
add_left c a b h = omega arith

module _ {A : Type 0} where
  pub ok_got : (x : Reply A) (a : A) → of_reply x ≡ ok a → x ≡ got a
  unfolding of_reply
  ok_got (got b) a h = cc h
  ok_got (lost e) a h = cc h

-- How far the clock is.
unfoldable pub AtLeast : {W : Type 0} ⦃host : Host W⦄ → ℕ → St W → Type 0
AtLeast ⦃host = host⦄ c s = c ≤ host.clock s.world

module _ {W : Type 0} ⦃host : Host W⦄ (ticking : Ticking host) (c : ℕ) where
  pub call-AtLeast : (k : Call) → Keeps {W = W} (AtLeast c) (call k)
  unfolding call AtLeast
  call-AtLeast k = record { at = λ s h. le_trans h (ticking.forward s.world k) }

  pub update-AtLeast : (f : State → State) → Keeps {W = W} (AtLeast c) (update f)
  unfolding update AtLeast
  update-AtLeast f = record { at = λ s h. h }

  modify-AtLeast : (f : Job → Job) → Keeps {W = W} (AtLeast c) (modify f)
  unfolding modify AtLeast
  modify-AtLeast f = record { at = λ s h. h }

  phase-AtLeast : (p : Phase) (m : Text) → Keeps {W = W} (AtLeast c) (phase p m)
  unfolding phase
  phase-AtLeast p m = update-AtLeast _

  pub watches : Watches {W = W} (AtLeast c)
  watches = record {
    frame = record {
      reads = λ k h. call-AtLeast k;
      jobs = λ f h. modify-AtLeast f;
      updates = λ f h. update-AtLeast f;
    };
    unknown-Keeps = λ m. phase-AtLeast _ m;
    stop_clone-Keeps = λ k. call-AtLeast (Call.stop_clone k);
  }

  pub paused-AtLeast :
      (d : ℕ) (s : St W) (a : Unit {0})
      → AtLeast c s
      → (call (Call.pause d) s).0 ≡ ok a
      → AtLeast (c + d) (call (Call.pause d) s).1
  unfolding call AtLeast
  paused-AtLeast d s a h e =
      le_trans (add_le c d h)
        (ticking.pauses s.world d (ok_got (host.ask s.world (Call.pause d)).0 a e))

  pub pause-From :
      (d : ℕ) → From {W = W} (AtLeast c) (WithValue (AtLeast (c + d))) (try (call (Call.pause d)))
  unfolding try
  pause-From d = record {
    at = λ s h r e.
        caught-WithValue (AtLeast (c + d)) (call (Call.pause d) s)
          (λ a got_it. paused-AtLeast d s a h got_it) r e;
  }
