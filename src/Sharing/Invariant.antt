-- ===== src/Sharing/Invariant.antt =====
-- Every request keeps the shapes of the rows and the unique indexes.
use goal_slot_api.Base.{
  same_key, forbidden, unique_violation, All-Memᴰ, Pairs-map, ℕ, ◌≡◌, refl, sym, ap, subst, ◌∙◌,
  Bool, true, false, not, inl, inr, Option, none, some, [], ◌∷◌, ◌++◌, String, str_eq, eq_iff,
  eq_refl, find, any, update_where, delete_where, arith, ok, ◌>>◌, throw_if, >>=-eq-ok, >>-eq-ok,
  Pairs, Memᴰ, All-append, All-map, All-update_where, Pairs-update_where, All-delete_where,
  Pairs-delete_where, Pairs-snoc, any-false, updated, Bool-cases, Exception,
}
use goal_slot_api.Db.{column_eq}
use goal_slot_api.Sharing.{
  SharedAccess, Shares, share_by_id, same_value, clashes, create_share, found_share, delete_found,
  viewed, mark_viewed,
}
use goal_slot_api.Sharing.Requests.{HasShape, is_invitation, is_share, is_link, Apart, IsTable}

pub throw_if-ok : (b : Bool) (e : Exception) → throw_if b e ≡ ok tt → b ≡ false
throw_if-ok true e h = cc
throw_if-ok false e h = refl

pub found_share-ok :
    (message : String) (o : Option SharedAccess) (s : SharedAccess)
    → found_share message o ≡ ok s
    → o ≡ some s
found_share-ok message none s e = cc
found_share-ok message (some t) s e = let same : t ≡ s = cc in ap some same

pub str_eq-sym : (a b : String) → str_eq a b ≡ str_eq b a
str_eq-sym a b = elim (Bool-cases (str_eq a b)) [
  | inl same ↦ let e : a ≡ b = (eq_iff a b).0 same in rw e refl
  | inr other ↦ elim (Bool-cases (str_eq b a)) [
    | inl same ↦
        let e : b ≡ a = (eq_iff b a).0 same in let both : str_eq a b ≡ true = rw e (eq_refl a) in cc
    | inr other' ↦ other ∙ sym other'
  ]
]

same_value-sym : (a b : Option String) → same_value a b ≡ same_value b a
same_value-sym none none = refl
same_value-sym none (some b) = refl
same_value-sym (some a) none = refl
same_value-sym (some a) (some b) = str_eq-sym b a

pub Apart-sym : (r s : SharedAccess) → Apart r s → Apart s r
Apart-sym r s h =
    let ids = str_eq-sym s.id r.id in
    let tokens = same_value-sym s.invite_token r.invite_token in
    let owners = str_eq-sym s.owner_id r.owner_id in
    let users = same_value-sym s.shared_with_id r.shared_with_id in
    let emails = same_value-sym s.invite_email r.invite_email in
    rw (ids, tokens, owners, users, emails) h

-- A key names one row.
same_share-from :
    (shares : Shares) (x y : SharedAccess)
    → Pairs Apart shares
    → Memᴰ x shares
    → Memᴰ y shares
    → str_eq x.id y.id ≡ true
    → x ≡ y
same_share-from shares x y apart mx my same =
    same_key (λ (s : SharedAccess). s.id) shares
      (Pairs-map {0, 0, 0, 0} {K = λ s. Unit} (λ a b k k' h e. apart_ids a b h e) shares
        (All-map (λ s m. tt) shares (All-Memᴰ shares)) apart)
      mx my ((eq_iff x.id y.id).0 same)
  where
    apart_ids : (a b : SharedAccess) → Apart a b → ¬ (a.id ≡ b.id)
    apart_ids a b h e =
        let both : str_eq a.id b.id ≡ true = rw e (eq_refl b.id) in absurd (ground arith)

pub same_share :
    (shares : Shares) (x y : SharedAccess)
    → IsTable shares
    → Memᴰ x shares
    → Memᴰ y shares
    → str_eq x.id y.id ≡ true
    → x ≡ y
same_share shares x y table mx my same = same_share-from shares x y table.apart mx my same

pub create_share-IsTable :
    (r : SharedAccess) (shares shares' : Shares)
    → IsTable shares
    → HasShape r
    → create_share r shares ≡ ok shares'
    → (shares' ≡ shares ++ r ∷ []) × IsTable shares'
unfolding create_share
create_share-IsTable r shares shares' table shape e =
    let (guard, last) =
      >>-eq-ok (throw_if (any (clashes r) shares) unique_violation) (ok (shares ++ r ∷ [])) e in
    let free =
      any-false (clashes r) shares (throw_if-ok (any (clashes r) shares) unique_violation guard) in
    let e' : shares ++ r ∷ [] ≡ shares' = cc in
    (
      sym e',
      subst IsTable e' (record {
        shaped = All-append HasShape shares (r ∷ []) table.shaped (shape, tt);
        apart =
            Pairs-snoc Apart shares r table.apart (All-map (λ s h. Apart-sym r s h) shares free);
      }),
    )

pub delete_found-IsTable :
    (message : String) (test : SharedAccess → Bool) (shares shares' : Shares)
    → IsTable shares
    → delete_found message test shares ≡ ok shares'
    → (s : SharedAccess) × (find test shares ≡ some s)
      × (shares' ≡ delete_where (share_by_id s.id) shares)
      × IsTable shares'
unfolding delete_found
delete_found-IsTable message test shares shares' table e =
    let (s, found, e') =
      >>=-eq-ok (found_share message (find test shares))
        (λ s. ok (delete_where (share_by_id s.id) shares)) e in
    let last : delete_where (share_by_id s.id) shares ≡ shares' = cc in
    (
      s,
      found_share-ok message (find test shares) s found,
      sym last,
      subst IsTable last (record {
        shaped = All-delete_where (share_by_id s.id) HasShape shares table.shaped;
        apart = Pairs-delete_where (share_by_id s.id) Apart shares table.apart;
      }),
    )

-- What a view writes.
viewed-HasShape : (now : ℕ) (s : SharedAccess) → HasShape s → HasShape (viewed now s)
viewed-HasShape now s (is_invitation email token expires a b c d e) =
    is_invitation email token expires a b c d e
viewed-HasShape now s (is_share user_id a b c d e f) = is_share user_id a b c d e f
viewed-HasShape now s (is_link token expires a b c d e f) = is_link token expires a b c d e f

viewed-clashes :
    (p : SharedAccess → Bool) (now : ℕ) (x y : SharedAccess)
    → clashes (updated p (viewed now) x) (updated p (viewed now) y) ≡ clashes x y
viewed-clashes p now x y = elim (Bool-cases (p x)) [
  | inl hit_x ↦ elim (Bool-cases (p y)) [
    | inl hit_y ↦ rw (hit_x, hit_y) refl
    | inr miss_y ↦ rw (hit_x, miss_y) refl
  ]
  | inr miss_x ↦ elim (Bool-cases (p y)) [
    | inl hit_y ↦ rw (miss_x, hit_y) refl
    | inr miss_y ↦ rw (miss_x, miss_y) refl
  ]
]

pub mark_viewed-IsTable :
    (share_id caller_id : String) (now : ℕ) (shares shares' : Shares)
    → IsTable shares
    → mark_viewed share_id caller_id now shares ≡ ok shares'
    → (shares' ≡ update_where (share_by_id share_id) (viewed now) shares) × IsTable shares'
unfolding mark_viewed
mark_viewed-IsTable share_id caller_id now shares shares' table e =
    let (s, found, e') =
      >>=-eq-ok (found_share "Share not found" (find (share_by_id share_id) shares))
        (λ s.
          throw_if (not (column_eq s.shared_with_id caller_id))
            (forbidden "You do not have access to this share")
          >> ok (update_where (share_by_id share_id) (viewed now) shares))
        e in
    let (guard, last) =
      >>-eq-ok
        (throw_if (not (column_eq s.shared_with_id caller_id))
          (forbidden "You do not have access to this share"))
        (ok (update_where (share_by_id share_id) (viewed now) shares)) e' in
    let e'' : update_where (share_by_id share_id) (viewed now) shares ≡ shares' = cc in
    (
      sym e'',
      subst IsTable e'' (record {
        shaped = All-update_where (share_by_id share_id) (viewed now) HasShape shares (
            All-map
              (λ x shape. elim (Bool-cases (share_by_id share_id x)) [
                | inl hit ↦ rw hit (viewed-HasShape now x shape)
                | inr miss ↦ rw miss shape
              ])
              shares table.shaped);
        apart = Pairs-update_where (share_by_id share_id) (viewed now) Apart shares (
            Pairs-map {0, 0, 0, 0} {K = λ x. Unit}
              (λ x y k k' h. viewed-clashes (share_by_id share_id) now x y ∙ h) shares
              (All-map (λ x m. tt) shares (All-Memᴰ shares)) table.apart);
      }),
    )
