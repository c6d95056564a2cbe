-- ===== src/Sharing/Steps.antt =====
-- What a request that succeeds does to the table.
use goal_slot_api.Base.{
  ℕ, ◌≡◌, refl, Bool, true, false, ◌&&◌, List, [], ◌∷◌, ◌++◌, String, str_eq, eq_refl, find, any,
  update_where, delete_where, ok, ◌>>=◌, throw_if, >>=-eq-ok, >>-eq-ok, Memᴰ, All-at, conflict,
}
use goal_slot_api.Db.{User, column_eq, user_by_id}
use goal_slot_api.Sharing.{
  SharedAccess, Shares, share_by_id, create_share, found_user, invited, invitation, invite_user,
  accepted_by, delete_found, days_or_30, write_accepted, addressed, decline_invite, revoke_access,
  remove_my_access, public_link, create_public_link, delete_public_link, viewed,
}
use goal_slot_api.Sharing.Requests.{
  Request, invite, accept_by_token, accept_by_id, decline, revoke, unlink, leave, make_link, mark,
  HasShape, is_invitation, is_link, IsTable, handle, Reach, nobody, request,
}
use goal_slot_api.Sharing.Accept.{IsFor, IsFor-private, accept_invitation-inv, accept_invite-inv}
use goal_slot_api.Sharing.AcceptedRow.{write_accepted-IsTable}
use goal_slot_api.Sharing.Invariant.{
  create_share-IsTable, delete_found-IsTable, mark_viewed-IsTable,
}

-- The user whose acceptance a request is.
abbrev pub accepts : String → Request → Bool
accepts user_id (accept_by_token u token now) = str_eq u user_id
accepts user_id (accept_by_id u invite_id) = str_eq u user_id
accepts user_id _ = false

pub data Change (lower : String → String) (users : List User) (q : Request)
    (shares shares' : Shares) : Type 0 where
  added :
      (r : SharedAccess)
      → r.is_accepted ≡ false
      → shares' ≡ shares ++ r ∷ []
      → Change lower users q shares shares'
  removed :
      (id : String)
      → shares' ≡ delete_where (share_by_id id) shares
      → Change lower users q shares shares'
  seen :
      (id : String) (now : ℕ)
      → shares' ≡ update_where (share_by_id id) (viewed now) shares
      → Change lower users q shares shares'
  accepted :
      (user_id : String) (s : SharedAccess)
      → accepts user_id q ≡ true
      → Memᴰ s shares
      → s.is_accepted ≡ false
      → IsFor lower users user_id s
      → shares' ≡ update_where (share_by_id s.id) (accepted_by user_id) shares
      → Change lower users q shares shares'

module _ (lower : String → String) (users : List User) where
  write_accepted-Change :
      (q : Request) (user_id : String) (s : SharedAccess) (shares shares' : Shares)
      → IsTable shares
      → accepts user_id q ≡ true
      → Memᴰ s shares
      → s.is_accepted ≡ false
      → IsFor lower users user_id s
      → write_accepted user_id s shares ≡ ok shares'
      → IsTable shares' × Change lower users q shares shares'
  write_accepted-Change q user_id s shares shares' table is_his m waits for_user e =
      let private_row =
        IsFor-private lower users user_id s (All-at HasShape shares table.shaped m) for_user in
      let (eq, table') = write_accepted-IsTable user_id s shares m table shares' private_row e in
      (table', accepted user_id s is_his m waits for_user eq)

  create_share-Change :
      (q : Request) (r : SharedAccess) (shares shares' : Shares)
      → IsTable shares
      → HasShape r
      → r.is_accepted ≡ false
      → create_share r shares ≡ ok shares'
      → IsTable shares' × Change lower users q shares shares'
  create_share-Change q r shares shares' table shape waits e =
      let (eq, table') = create_share-IsTable r shares shares' table shape e in
      (table', added r waits eq)

  delete_found-Change :
      (q : Request) (message : String) (test : SharedAccess → Bool) (shares shares' : Shares)
      → IsTable shares
      → delete_found message test shares ≡ ok shares'
      → IsTable shares' × Change lower users q shares shares'
  delete_found-Change q message test shares shares' table e =
      let (s, found, eq, table') = delete_found-IsTable message test shares shares' table e in
      (table', removed s.id eq)

  pub handle-Change :
      (plus_days : ℕ → ℕ → ℕ) (q : Request) (shares shares' : Shares)
      → IsTable shares
      → handle lower plus_days q users shares ≡ ok shares'
      → IsTable shares' × Change lower users q shares shares'
  unfolding invite_user invitation decline_invite revoke_access remove_my_access create_public_link
      public_link delete_public_link
  handle-Change plus_days (invite fresh_id token owner_id dto now) shares shares' table e =
      let r = invitation plus_days fresh_id token owner_id dto now users in
      let (known, e1) =
        >>-eq-ok (found_user "Owner not found" (find (user_by_id owner_id) users) >>= λ u. ok tt) _
          e in
      let (fresh, e2) =
        >>-eq-ok
          (throw_if (any (invited users owner_id dto.email) shares)
            (conflict "User already has access or pending invitation"))
          _ e1 in
      create_share-Change (invite fresh_id token owner_id dto now) r shares shares' table
        (is_invitation dto.email token (plus_days now 7) refl refl refl refl refl) refl e2
  handle-Change plus_days (accept_by_token user_id token now) shares shares' table e =
      let (s, m, waits, for_user, last) =
        accept_invitation-inv lower users user_id token now shares shares' e in
      write_accepted-Change (accept_by_token user_id token now) user_id s shares shares' table
        (eq_refl user_id) m waits for_user last
  handle-Change plus_days (accept_by_id user_id invite_id) shares shares' table e =
      let (s, m, waits, for_user, last) =
        accept_invite-inv lower users user_id invite_id shares shares' e in
      write_accepted-Change (accept_by_id user_id invite_id) user_id s shares shares' table
        (eq_refl user_id) m waits for_user last
  handle-Change plus_days (decline user_id invite_id) shares shares' table e =
      let (u, got, e1) =
        >>=-eq-ok (found_user "User not found" (find (user_by_id user_id) users)) _ e in
      delete_found-Change (decline user_id invite_id) "Invite not found"
        (λ s. share_by_id invite_id s && addressed user_id u.email s) shares shares' table e1
  handle-Change plus_days (revoke owner_id share_id) shares shares' table e =
      delete_found-Change (revoke owner_id share_id) "Share not found"
        (λ s. share_by_id share_id s && str_eq s.owner_id owner_id) shares shares' table e
  handle-Change plus_days (unlink owner_id share_id) shares shares' table e =
      delete_found-Change (unlink owner_id share_id) "Public link not found"
        (λ s. share_by_id share_id s && str_eq s.owner_id owner_id && s.is_public_link) shares
        shares' table e
  handle-Change plus_days (leave user_id share_id) shares shares' table e =
      delete_found-Change (leave user_id share_id) "Share not found"
        (λ s. share_by_id share_id s && column_eq s.shared_with_id user_id) shares shares' table e
  handle-Change plus_days (make_link fresh_id token owner_id dto now) shares shares' table e =
      create_share-Change (make_link fresh_id token owner_id dto now)
        (public_link plus_days fresh_id token owner_id dto now) shares shares' table
        (is_link token (plus_days now (days_or_30 dto.expires_in_days)) refl refl refl refl refl
          refl)
        refl e
  handle-Change plus_days (mark share_id caller_id now) shares shares' table e =
      let (eq, table') = mark_viewed-IsTable share_id caller_id now shares shares' table e in
      (table', seen share_id now eq)

-- In every table that requests lead to, each row is an invitation that waits, with email, token and
-- expiry, or an accepted share, which has none of these, or a public link, which is nobody's and not
-- accepted; and no two rows share a key, a token, an owner and a user, or an owner and an email.
pub Reach-IsTable :
    (lower : String → String) (plus_days : ℕ → ℕ → ℕ) (shares : Shares)
    → Reach lower plus_days shares
    → IsTable shares
Reach-IsTable lower plus_days _ nobody = record { shaped = tt; apart = tt }
Reach-IsTable lower plus_days _ (request {shares} {shares'} users q before e) =
    (handle-Change lower users plus_days q shares shares'
      (Reach-IsTable lower plus_days shares before) e).0
