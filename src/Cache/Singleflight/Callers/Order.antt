-- ===== src/Cache/Singleflight/Callers/Order.antt =====
-- internal/cache/singleflight.go: the goroutines in the closure, and the leaders that the group knows.
use file_server.Prelude.{
  ℕ, Str, str_dec, Bool, true, false, none, some, some-injective, ◌≡◌, ◌≢◌, refl, sym, ap, ◌∙◌,
  arith, ℕ_discrete, subst,
}
use file_server.Errors.{Result, ok, err}
use file_server.Storage.{Reader}
use file_server.Cache.Lru.{Meta}
use file_server.Cache.Singleflight.{SfResult}
use file_server.Cache.Singleflight.Callers.{
  Group, GroupLaws, Phase, starting, entering, leading, fetching, waiting, storing, leaving,
  returned, after_first, after_second, after_fetch, put_phase,
}

-- The goroutine is in the closure, or at its end.
unfoldable pub is_running : Phase → Bool
is_running starting = false
is_running entering = false
is_running leading = true
is_running fetching = true
is_running waiting = false
is_running (storing body meta) = true
is_running (leaving r) = true
is_running (returned r) = false

module _ (ps : ℕ → Phase) (i : ℕ) (p : Phase) where
  pub put_phase_here : put_phase ps i p i ≡ p
  put_phase_here = ground arith

  pub put_phase_there : (j : ℕ) → i ≢ j → put_phase ps i p j ≡ ps j
  put_phase_there j n = ground arith

  running_as_before :
      is_running p ≡ is_running (ps i)
      → (j : ℕ) → is_running (put_phase ps i p j) ≡ is_running (ps j)
  running_as_before alike j = elim (ℕ_discrete i j) [
    | yes e ↦
        subst (λ x. is_running (put_phase ps i p x) ≡ is_running (ps x)) e (rw put_phase_here alike)
    | no n ↦ rw (put_phase_there j n)
  ]

pub running-after_first : (r : Result (Reader × Meta)) → is_running (after_first r) ≡ false
unfolding is_running after_first
running-after_first (ok p) = refl
running-after_first (err e) = refl

pub running-after_second : (r : Result (Reader × Meta)) → is_running (after_second r) ≡ true
unfolding is_running after_second
running-after_second (ok p) = refl
running-after_second (err e) = refl

pub running-after_fetch : (r : Result (Reader × Meta)) → is_running (after_fetch r) ≡ true
unfolding is_running after_fetch
running-after_fetch (ok (ok body, meta)) = refl
running-after_fetch (ok (err e, meta)) = refl
running-after_fetch (err e) = refl

module _ (G : Group) (key_of : ℕ → Str) where
  -- The goroutines in the closure are those that the group knows as the leaders of their keys.
  pub record IsOrdered (g : G.State) (ps : ℕ → Phase) : Type 0 where
    pub known : (i : ℕ) → is_running (ps i) ≡ true → G.leader g (key_of i) ≡ some i
    pub runs :
        (k : Str) (l : ℕ) → G.leader g k ≡ some l → (is_running (ps l) ≡ true) × (key_of l ≡ k)

  module _ (g : G.State) (ps : ℕ → Phase) (i : ℕ) (h : IsOrdered g ps) where
    -- A step that enters or leaves no closure.
    pub aside-IsOrdered :
        (p : Phase) → is_running p ≡ is_running (ps i) → IsOrdered g (put_phase ps i p)
    aside-IsOrdered p alike = record {
      known = λ j e. h.known j (sym (running_as_before ps i p alike j) ∙ e);
      runs = λ k l e.
          let (running, own) = h.runs k l e in (running_as_before ps i p alike l ∙ running, own);
    }

    module _ (laws : GroupLaws G) where
      -- The group after the goroutine has entered it.
      abbrev entered : G.State
      entered = (G.enter g (key_of i) i).0

      pub enter_leads :
          (p : Phase)
          → is_running p ≡ true
          → G.leader g (key_of i) ≡ none
          → IsOrdered entered (put_phase ps i p)
      enter_leads p inside free = record {
        known = λ j e. elim (ℕ_discrete i j) [
          | yes same ↦
              subst (λ x. G.leader entered (key_of x) ≡ some x) same
                (laws.enter_free g (key_of i) i free).1
          | no n ↦
              let led = h.known j (ap is_running (sym (put_phase_there ps i p j n)) ∙ e) in
              laws.enter_other g (key_of i) (key_of j) i (λ same. cc) ∙ led
        ];
        runs = λ k l e. elim (str_dec (key_of i) k) [
          | yes same ↦
              let l_is : i ≡ l =
                some-injective i l
                  (sym (laws.enter_free g (key_of i) i free).1 ∙ ap (G.leader entered) same ∙ e) in
              subst (λ x. (is_running (put_phase ps i p x) ≡ true) × (key_of x ≡ k)) l_is
                (rw (put_phase_here ps i p) inside, same)
          | no n ↦
              let (running, own) = h.runs k l (sym (laws.enter_other g (key_of i) k i n) ∙ e) in
              (rw (put_phase_there ps i p l (λ same. n (ap key_of same ∙ own))) running, own)
        ];
      }

      pub enter_waits :
          (p : Phase) (l : ℕ)
          → is_running p ≡ is_running (ps i)
          → G.leader g (key_of i) ≡ some l
          → IsOrdered entered (put_phase ps i p)
      enter_waits p l alike taken = record {
        known = λ j e. leader_same (key_of j) ∙ before.known j e;
        runs = λ k j e. before.runs k j (sym (leader_same k) ∙ e);
      }
        where
          before : IsOrdered g (put_phase ps i p)
          before = aside-IsOrdered p alike

          leader_same : (k : Str) → G.leader entered k ≡ G.leader g k
          leader_same k = elim (str_dec (key_of i) k) [
            | yes same ↦
                subst (λ x. G.leader entered x ≡ G.leader g x) same
                  ((laws.enter_taken g (key_of i) i l taken).1 ∙ sym taken)
            | no n ↦ laws.enter_other g (key_of i) k i n
          ]

      pub leave-IsOrdered :
          (p : Phase) (r : Result SfResult)
          → is_running (ps i) ≡ true
          → is_running p ≡ false
          → IsOrdered (G.leave g (key_of i) r) (put_phase ps i p)
      leave-IsOrdered p r inside out = record {
        known = λ j e. elim (ℕ_discrete i j) [
          | yes same ↦ absurd (cc (put_phase_here ps i p, out, e, same))
          | no n ↦
              let led = h.known j (ap is_running (sym (put_phase_there ps i p j n)) ∙ e) in
              laws.leave_other g (key_of i) (key_of j) r (λ same.
                n (some-injective i j (sym (h.known i inside) ∙ ap (G.leader g) same ∙ led)))
              ∙ led
        ];
        runs = λ k l e. elim (str_dec (key_of i) k) [
          | yes same ↦ absurd (cc (laws.leave_key g (key_of i) r, e, same))
          | no n ↦
              let (running, own) = h.runs k l (sym (laws.leave_other g (key_of i) k r n) ∙ e) in
              (rw (put_phase_there ps i p l (λ same. n (ap key_of same ∙ own))) running, own)
        ];
      }
