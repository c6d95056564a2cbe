-- ===== src/Sharing/AcceptedRow.antt =====
-- The row that an acceptance writes keeps the shapes and the unique indexes.
use goal_slot_api.Base.{
  unique_violation, All-Memᴰ, Pairs-map, ◌≡◌, refl, sym, subst, true, false, inl, inr, String,
  eq_refl, any, update_where, arith, ok, throw_if, >>-eq-ok, All, Memᴰ, All-map₂, All-update_where,
  Pairs-update_where, any-false, updated, Bool-cases,
}
use goal_slot_api.Sharing.{
  SharedAccess, Shares, share_by_id, clashes, accepted_by, refuses, write_accepted,
}
use goal_slot_api.Sharing.Invariant.{throw_if-ok, Apart-sym, same_share}
use goal_slot_api.Sharing.Requests.{HasShape, is_share, Apart, IsTable}

-- What acceptance writes.
module _ (user_id : String) (s : SharedAccess) (shares : Shares) (m : Memᴰ s shares)
    (table : IsTable shares) where
  abbrev Fits : SharedAccess → Type 0
  Fits x = (refuses (accepted_by user_id s) x ≡ false) × (share_by_id s.id x ≡ true → x ≡ s)

  Fits-all : any (refuses (accepted_by user_id s)) shares ≡ false → All Fits shares
  Fits-all free =
      All-map₂ (λ x free_of_x mx. (free_of_x, λ same. same_share shares x s table mx m same)) shares
        (any-false (refuses (accepted_by user_id s)) shares free) (All-Memᴰ shares)

  accepted-Apart :
      (x y : SharedAccess)
      → Fits x
      → Fits y
      → share_by_id s.id x ≡ true
      → share_by_id s.id y ≡ false
      → Apart (accepted_by user_id x) y
  unfolding accepted_by
  accepted-Apart x y fx fy hit miss =
      let free : clashes (accepted_by user_id s) y ≡ false = rw miss at fy.0 in
      subst (λ z. Apart (accepted_by user_id z) y) (sym (fx.1 hit)) free

  kept-Apart :
      (x y : SharedAccess)
      → Fits x
      → Fits y
      → Apart x y
      → Apart
          (updated (share_by_id s.id) (accepted_by user_id) x)
          (updated (share_by_id s.id) (accepted_by user_id) y)
  unfolding accepted_by
  kept-Apart x y fx fy h = elim (Bool-cases (share_by_id s.id x)) [
    | inl hit_x ↦ elim (Bool-cases (share_by_id s.id y)) [
      | inl hit_y ↦
          let both : Apart s s =
            subst (λ z. Apart s z) (fy.1 hit_y) (subst (λ z. Apart z y) (fx.1 hit_x) h) in
          let same = eq_refl s.id in absurd (ground arith)
      | inr miss_y ↦ rw (hit_x, miss_y) (accepted-Apart x y fx fy hit_x miss_y)
    ]
    | inr miss_x ↦ elim (Bool-cases (share_by_id s.id y)) [
      | inl hit_y ↦
          rw (miss_x, hit_y)
            (Apart-sym (accepted_by user_id y) x (accepted-Apart y x fy fx hit_y miss_x))
      | inr miss_y ↦ rw (miss_x, miss_y) h
    ]
  ]

  kept_shape :
      (x : SharedAccess)
      → Fits x
      → s.is_public_link ≡ false
      → HasShape x
      → HasShape (updated (share_by_id s.id) (accepted_by user_id) x)
  unfolding accepted_by
  kept_shape x fits private_row shape = elim (Bool-cases (share_by_id s.id x)) [
    | inl hit ↦
        let private_x : x.is_public_link ≡ false =
          subst (λ z. z.is_public_link ≡ false) (sym (fits.1 hit)) private_row in
        rw hit (is_share user_id refl private_x refl refl refl refl)
    | inr miss ↦ rw miss shape
  ]

  pub write_accepted-IsTable :
      (shares' : Shares)
      → s.is_public_link ≡ false
      → write_accepted user_id s shares ≡ ok shares'
      → (shares' ≡ update_where (share_by_id s.id) (accepted_by user_id) shares) × IsTable shares'
  unfolding write_accepted accepted_by
  write_accepted-IsTable shares' private_row e =
      let (guard, last) =
        >>-eq-ok (throw_if (any (refuses (accepted_by user_id s)) shares) unique_violation)
          (ok (update_where (share_by_id s.id) (accepted_by user_id) shares)) e in
      let fits =
        Fits-all
          (throw_if-ok (any (refuses (accepted_by user_id s)) shares) unique_violation guard) in
      let e' : update_where (share_by_id s.id) (accepted_by user_id) shares ≡ shares' = cc in
      (
        sym e',
        subst IsTable e' (record {
          shaped =
              All-update_where (share_by_id s.id) (accepted_by user_id) HasShape shares
                (All-map₂ (λ x f shape. kept_shape x f private_row shape) shares fits table.shaped);
          apart =
              Pairs-update_where (share_by_id s.id) (accepted_by user_id) Apart shares
                (Pairs-map {0, 0, 0, 0} kept-Apart shares fits table.apart);
        }),
      )
