-- ===== src/Handler/Merge.antt =====
-- The result of GetResult over all orders in which the connections finish.
use pcbu_desktop.Base.{
  ℕ, ◌≡◌, refl, ap, ◌∙◌, ◌⊎◌, inl, inr, Bool, true, false, List, [], ◌∷◌, ltb, if◌then◌else◌, arith,
}
use pcbu_desktop.Unlock.State.{UnlockState, success, is_unknown, is_success}
use pcbu_desktop.Handler.{
  is_phone_answer, UnlockResult, Results, store_result, finish_server, finish_all,
}

-- How much a state tells: a success most, then an answer of the phone.
unfoldable pub rank : UnlockState → ℕ
unfolding is_phone_answer
rank s = if is_success s then 2 else if is_phone_answer s then 1 else 0

abbrev pub max : ℕ → ℕ → ℕ
max a b = if ltb a b then b else a

abbrev pub best_rank : ℕ → List (UnlockResult × Bool) → ℕ
best_rank n [] = n
best_rank n ((r, is_other) ∷ rest) = best_rank (max n (rank r.state)) rest

rank-cases :
    (s : UnlockState)
    → ((is_success s ≡ true) × (rank s ≡ 2))
      ⊎ (((is_success s ≡ false)
            × (is_phone_answer s ≡ true)
            × (rank s ≡ 1)
            × (is_unknown s ≡ false))
          ⊎ ((is_success s ≡ false) × (is_phone_answer s ≡ false) × (rank s ≡ 0)))
unfolding rank is_phone_answer
rank-cases success = inl (refl, refl)
rank-cases UnlockState.time_error = inr (inl (refl, refl, refl, refl))
rank-cases UnlockState.not_paired_error = inr (inl (refl, refl, refl, refl))
rank-cases UnlockState.app_error = inr (inl (refl, refl, refl, refl))
rank-cases UnlockState.data_error = inr (inl (refl, refl, refl, refl))
rank-cases UnlockState.protocol_error = inr (inl (refl, refl, refl, refl))
rank-cases _ = inr (inr (refl, refl, refl))

-- Results of other clients are only merged if they are successes or answers.
store_result-rank :
    (stored r : UnlockResult) (is_other : Bool)
    → rank (store_result stored r is_other).state ≡ max (rank stored.state) (rank r.state)
store_result-rank stored r is_other =
    let a = rank-cases stored.state in let b = rank-cases r.state in ground arith

finish_server-rank :
    (n : ℕ) (s : Results) (r : UnlockResult) (is_other : Bool)
    → rank (finish_server n s r is_other).current.state ≡ max (rank s.current.state) (rank r.state)
unfolding finish_server
finish_server-rank n s r is_other =
    let a = rank-cases s.current.state in
    let b = rank-cases r.state in
    let c = store_result-rank s.current r is_other in
    let d = rank-cases (store_result s.current r is_other).state in ground arith

-- The result of GetResult tells as much as the best of the connections' results, in whatever order they
-- finish: it is a success exactly if one of them is, and else an answer of the phone if one of them is.
pub finish_all-rank :
    (n : ℕ) (s : Results) (rs : List (UnlockResult × Bool))
    → rank (finish_all n s rs).current.state ≡ best_rank (rank s.current.state) rs
unfolding finish_all
finish_all-rank n s [] = refl
finish_all-rank n s ((r, is_other) ∷ rest) =
    finish_all-rank n (finish_server n s r is_other) rest
    ∙ ap (λ k. best_rank k rest) (finish_server-rank n s r is_other)
