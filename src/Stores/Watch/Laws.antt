-- ===== src/Stores/Watch/Laws.antt =====
-- The components that watch a store: what each of them shows after any sequence of steps.
use forgequeue.Common.{
  ◌≡◌, ◌⊎◌, ◌∙◌, refl, ap, arith, Bool, true, not, ◌&&◌, List, [], ◌∷◌, ◌++◌, map, Text, text_eq,
  text_eq_iff, TextSet, has, add, delete, IsDistinct, has-add, has-delete, add_unique,
  delete_unique, filter_by, every, inl, inr, if◌then◌else◌,
}
use forgequeue.Stores.Watch.{
  Observable, Watched, WatchStep, mount, unmount, set, subscribe, unsubscribe, unwatched, show,
  notify, emit_to, watch_step, watch_run,
}

-- What the components show after a call of these listeners that all read `v`.
abbrev marked {ν} : {Value : Type ν} → TextSet → Value → List (Text × Value) → List (Text × Value)
marked ls v shown = map (λ x. if has ls x.0 then (x.0, v) else x) shown

-- What they show if each of them shows `v`.
abbrev pub all_at {ν} : {Value : Type ν} → Value → List (Text × Value) → List (Text × Value)
all_at v shown = map (λ x. (x.0, v)) shown

abbrev pub are_listened {ν} : {Value : Type ν} → TextSet → List (Text × Value) → Bool
are_listened ls shown = every (λ x. has ls x.0) shown

module _ {ν} {Value : Type ν} where
  marked-nil : (v : Value) (shown : List (Text × Value)) → marked [] v shown ≡ shown
  unfolding has
  marked-nil v [] = refl
  marked-nil v (x ∷ shown) = ap (◌∷◌ x) (marked-nil v shown)

  marked-show :
      (l : Text) (ls : TextSet) (v : Value) (shown : List (Text × Value))
      → marked ls v (show l v shown) ≡ marked (l ∷ ls) v shown
  unfolding has
  marked-show l ls v [] = refl
  marked-show l ls v ((i, w) ∷ shown) = ground (arith, marked-show l ls v shown)

  marked-are_listened :
      (ls : TextSet) (v : Value) (shown : List (Text × Value))
      → are_listened ls shown ≡ true
      → marked ls v shown ≡ all_at v shown
  marked-are_listened ls v [] h = refl
  marked-are_listened ls v ((i, w) ∷ shown) h = ground (arith, marked-are_listened ls v shown)

  all_at-all_at :
      (v w : Value) (shown : List (Text × Value)) → all_at v (all_at w shown) ≡ all_at v shown
  all_at-all_at v w [] = refl
  all_at-all_at v w (x ∷ shown) = ap (◌∷◌ (x.0, v)) (all_at-all_at v w shown)

  are_listened-all_at :
      (ls : TextSet) (v : Value) (shown : List (Text × Value))
      → are_listened ls (all_at v shown) ≡ are_listened ls shown
  are_listened-all_at ls v [] = refl
  are_listened-all_at ls v (x ∷ shown) = ap (◌&&◌ (has ls x.0)) (are_listened-all_at ls v shown)

  are_listened-add :
      (ls : TextSet) (id : Text) (v : Value) (shown : List (Text × Value))
      → are_listened ls shown ≡ true
      → are_listened (add ls id) (shown ++ (id, v) ∷ []) ≡ true
  are_listened-add ls id v [] h = ground (arith, has-add ls id id, text_eq_iff id id)
  are_listened-add ls id v (x ∷ shown) h =
      ground (arith, are_listened-add ls id v shown, has-add ls id x.0, h)

  are_listened-delete :
      (ls : TextSet) (id : Text) (shown : List (Text × Value))
      → IsDistinct ls
      → are_listened ls shown ≡ true
      → are_listened (delete ls id) (filter_by (λ x. not (text_eq id x.0)) shown) ≡ true
  are_listened-delete ls id [] u h = refl
  are_listened-delete ls id (x ∷ shown) u h =
      ground (arith, are_listened-delete ls id shown u, has-delete ls id x.0 u, h)

  all_at-append :
      (v : Value) (id : Text) (shown : List (Text × Value))
      → all_at v shown ≡ shown
      → all_at v (shown ++ (id, v) ∷ []) ≡ shown ++ (id, v) ∷ []
  all_at-append v id [] h = refl
  all_at-append v id (x ∷ shown) h = ground (arith, all_at-append v id shown, h)

  all_at-filter_by :
      (v : Value) (id : Text) (shown : List (Text × Value))
      → all_at v shown ≡ shown
      → all_at v (filter_by (λ x. not (text_eq id x.0)) shown)
        ≡ filter_by (λ x. not (text_eq id x.0)) shown
  all_at-filter_by v id [] h = refl
  all_at-filter_by v id (x ∷ shown) h = ground (arith, all_at-filter_by v id shown, h)

module _ {α σ γ ν} {Env : Type α} {Store : Type σ} {Change : Type γ} {Value : Type ν}
    (o : Observable Env Store Change Value) where
  -- Every component that is mounted has its listener in the set, and shows the value of the store.
  pub record AreCurrent (p : Watched Store Value) : Type ν where
    pub distinct : IsDistinct p.listeners
    pub listened : are_listened p.listeners p.shown ≡ true
    pub up_to_date : all_at (o.value p.store) p.shown ≡ p.shown
    pub settled : (p.shown ≡ []) ⊎ (o.is_settled p.store ≡ true)

  notify_settled :
      (e : Env) (l : Text) (p : Watched Store Value)
      → o.is_settled p.store ≡ true
      → notify o e l p ≡ record p { shown = show l (o.value p.store) p.shown }
  unfolding notify
  notify_settled e l p h = rw (o.read-value e p.store, o.read_settled e p.store h) refl

  -- A call of every listener, once the store is settled.
  emit_to_settled :
      (e : Env) (ls : TextSet) (p : Watched Store Value)
      → o.is_settled p.store ≡ true
      → emit_to o e ls p ≡ record p { shown = marked ls (o.value p.store) p.shown }
  unfolding emit_to
  emit_to_settled e [] p h = rw (marked-nil (o.value p.store) p.shown) refl
  emit_to_settled e (l ∷ ls) p h =
      rw (notify_settled e l p h, ← marked-show l ls (o.value p.store) p.shown)
        (emit_to_settled e ls (record p { shown = show l (o.value p.store) p.shown }) h)

  watch_step-AreCurrent :
      (e : Env) (s : WatchStep Change) (p : Watched Store Value)
      → AreCurrent p
      → AreCurrent (watch_step o e s p)
  unfolding watch_step subscribe unsubscribe
  watch_step-AreCurrent e (mount id) p h =
      let s = (o.read e p.store).0 in
      let kept : all_at (o.value s) p.shown ≡ p.shown = elim h.settled [
        | inl none_shown ↦ rw none_shown refl
        | inr settled ↦ rw (o.read_settled e p.store settled) h.up_to_date
      ] in
      rw (o.read-value e p.store) (record {
        distinct = add_unique p.listeners id h.distinct;
        listened = are_listened-add p.listeners id (o.value s) p.shown h.listened;
        up_to_date = all_at-append (o.value s) id p.shown kept;
        settled = inr (o.read-settles e p.store);
      })
  watch_step-AreCurrent e (unmount id) p h = record {
    distinct = delete_unique p.listeners id h.distinct;
    listened = are_listened-delete p.listeners id p.shown h.distinct h.listened;
    up_to_date = all_at-filter_by (o.value p.store) id p.shown h.up_to_date;
    settled = elim h.settled [
      | inl none_shown ↦ inl (rw none_shown refl)
      | inr settled ↦ inr settled
    ];
  }
  watch_step-AreCurrent e (set c) p h =
      let q : Watched Store Value = record p { store = o.change e c p.store } in
      let settled = o.change-settles e c p.store in
      rw
        (
          emit_to_settled e p.listeners q settled,
          marked-are_listened p.listeners (o.value q.store) p.shown h.listened,
        )
        (record {
          distinct = h.distinct;
          listened = are_listened-all_at p.listeners (o.value q.store) p.shown ∙ h.listened;
          up_to_date = all_at-all_at (o.value q.store) (o.value q.store) p.shown;
          settled = inr settled;
        })

  run-AreCurrent :
      (steps : List (Env × WatchStep Change)) (p : Watched Store Value)
      → AreCurrent p
      → AreCurrent (watch_run o steps p)
  unfolding watch_run
  run-AreCurrent [] p h = h
  run-AreCurrent ((e, s) ∷ steps) p h =
      run-AreCurrent steps (watch_step o e s p) (watch_step-AreCurrent e s p h)

  -- Whatever components are mounted and unmounted and whatever changes are made, in any order, each
  -- component that is mounted has its listener in the set and shows what a read of the store gives.
  pub watch_run-unwatched :
      (steps : List (Env × WatchStep Change)) (s : Store) (later : Env)
      → let p = watch_run o steps (unwatched s) in
        (are_listened p.listeners p.shown ≡ true)
        × (all_at (o.read later p.store).1 p.shown ≡ p.shown)
  watch_run-unwatched steps s later =
      let p = watch_run o steps (unwatched s) in
      let h =
        run-AreCurrent steps (unwatched s)
          (record { distinct = tt; listened = refl; up_to_date = refl; settled = inl refl }) in
      (
        h.listened,
        elim h.settled [
          | inl none_shown ↦ rw none_shown refl
          | inr settled ↦
              rw (o.read-value later p.store, o.read_settled later p.store settled) h.up_to_date
        ],
      )
