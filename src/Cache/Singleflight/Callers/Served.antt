-- ===== src/Cache/Singleflight/Callers/Served.antt =====
-- internal/cache/singleflight.go: what the goroutines that wait in `Do` wait for.
use file_server.Prelude.{
  ℕ, Str, str_dec, none, some, some-injective, ◌≡◌, ◌≢◌, sym, ap, ◌∙◌, ℕ_discrete, subst,
}
use file_server.Errors.{Result}
use file_server.Storage.{Reader}
use file_server.Cache.Lru.{Meta}
use file_server.Cache.Singleflight.{SfResult, to_reader}
use file_server.Cache.Singleflight.Callers.{
  Group, GroupLaws, Phase, waiting, leaving, returned, put_phase,
}
use file_server.Cache.Singleflight.Callers.Order.{put_phase_here, put_phase_there}

module _ (G : Group) (key_of : ℕ → Str) where
  -- A goroutine that waits does so for a leader of its key, or a leader of its key has returned the
  -- outcome that it has been given.
  pub data IsServed (g : G.State) (ps : ℕ → Phase) (i : ℕ) : Type 0 where
    held :
        (l : ℕ) → G.joined g i ≡ some (key_of i) → G.leader g (key_of i) ≡ some l → IsServed g ps i
    served :
        (l : ℕ) (r : Result SfResult)
        → G.joined g i ≡ none
        → G.outcome g i ≡ some r
        → key_of l ≡ key_of i
        → ps l ≡ returned (to_reader r)
        → IsServed g ps i

  -- So it is with every goroutine that waits.
  abbrev pub AreServed : G.State → (ℕ → Phase) → Type 0
  AreServed g ps = (i : ℕ) → ps i ≡ waiting → IsServed g ps i

  module _ (g : G.State) (ps : ℕ → Phase) (i : ℕ) (p : Phase) (h : AreServed g ps) where
    -- A leader that has returned stays so.
    put_phase-IsServed :
        (j : ℕ)
        → ((r : Result (Reader × Meta)) → ps i ≢ returned r)
        → IsServed g ps j
        → IsServed g (put_phase ps i p) j
    put_phase-IsServed j out (held l a b) = held l a b
    put_phase-IsServed j out (served l r a b own e) =
        served l r a b own (put_phase_there ps i p l (λ same. out (to_reader r) (cc)) ∙ e)

    -- A step that does not touch the group, and after which the goroutine does not wait.
    pub aside-AreServed :
        ((r : Result (Reader × Meta)) → ps i ≢ returned r)
        → p ≢ waiting
        → AreServed g (put_phase ps i p)
    aside-AreServed out n j e = elim (ℕ_discrete i j) [
      | yes same ↦ absurd (n (sym (put_phase_here ps i p) ∙ ap (put_phase ps i p) same ∙ e))
      | no other ↦ put_phase-IsServed j out (h j (sym (put_phase_there ps i p j other) ∙ e))
    ]

    module _ (laws : GroupLaws G) where
      abbrev entered : G.State
      entered = (G.enter g (key_of i) i).0

      led_still : (k : Str) (l : ℕ) → G.leader g k ≡ some l → G.leader entered k ≡ some l
      led_still k l led = elim (str_dec (key_of i) k) [
        | yes same ↦
            subst (λ x. G.leader g x ≡ some l → G.leader entered x ≡ some l) same
              (λ led'. (laws.enter_taken g (key_of i) i l led').1) led
        | no n ↦ laws.enter_other g (key_of i) k i n ∙ led
      ]

      -- The goroutine enters the group; the others are served as before.
      others_entered :
          (j : ℕ)
          → i ≢ j
          → ((r : Result (Reader × Meta)) → ps i ≢ returned r)
          → put_phase ps i p j ≡ waiting
          → IsServed entered (put_phase ps i p) j
      others_entered j n out e =
          let (joined_same, outcome_same) = laws.enter_others g (key_of i) i j n in
          elim (put_phase-IsServed j out (h j (sym (put_phase_there ps i p j n) ∙ e))) [
            | held l a b ↦ held l (joined_same ∙ a) (led_still (key_of j) l b)
            | served l r a b own done ↦ served l r (joined_same ∙ a) (outcome_same ∙ b) own done
          ]

      pub enter-AreServed :
          ((r : Result (Reader × Meta)) → ps i ≢ returned r)
          → (p ≡ waiting → IsServed entered (put_phase ps i p) i)
          → AreServed entered (put_phase ps i p)
      enter-AreServed out own j e = elim (ℕ_discrete i j) [
        | yes same ↦
            subst (IsServed entered (put_phase ps i p)) same
              (own (sym (put_phase_here ps i p) ∙ ap (put_phase ps i p) same ∙ e))
        | no n ↦ others_entered j n out e
      ]

  module _ (laws : GroupLaws G) (g : G.State) (ps : ℕ → Phase) (i : ℕ) (r : Result SfResult)
      (h : AreServed g ps) (at_end : ps i ≡ leaving r) where
    abbrev left : G.State
    left = G.leave g (key_of i) r

    abbrev after : ℕ → Phase
    after = put_phase ps i (returned (to_reader r))

    leave-IsServed : (j : ℕ) → IsServed g after j → IsServed left after j
    leave-IsServed j (held l a b) = elim (str_dec (key_of i) (key_of j)) [
      | yes same ↦
          let (joined_none, given) = laws.leave_joined g (key_of i) r j (a ∙ ap some (sym same)) in
          served i r joined_none given same (put_phase_here ps i (returned (to_reader r)))
      | no n ↦
          let (joined_same, _) =
            laws.leave_others g (key_of i) r j
              (λ e. n (some-injective (key_of i) (key_of j) (sym e ∙ a))) in
          held l (joined_same ∙ a) (laws.leave_other g (key_of i) (key_of j) r n ∙ b)
    ]
    leave-IsServed j (served l r' a b own e) =
        let (joined_same, outcome_same) = laws.leave_others g (key_of i) r j (λ e'. cc) in
        served l r' (joined_same ∙ a) (outcome_same ∙ b) own e

    pub leave-AreServed : AreServed left after
    leave-AreServed j e =
        leave-IsServed j
          (aside-AreServed g ps i (returned (to_reader r)) h (λ x bad. cc) (λ bad. cc) j e)
