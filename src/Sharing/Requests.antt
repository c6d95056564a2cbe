-- ===== src/Sharing/Requests.antt =====
-- The requests that write shared_access, and the shape of its rows.
use goal_slot_api.Base.{ℕ, ◌≡◌, true, false, none, some, List, [], String, Result, ok, All, Pairs}
use goal_slot_api.Db.{User}
use goal_slot_api.Sharing.{
  SharedAccess, InviteUserDto, CreatePublicLinkDto, Shares, clashes, invite_user, accept_invitation,
  accept_invite, decline_invite, revoke_access, remove_my_access, create_public_link,
  delete_public_link, mark_viewed,
}

-- Keys and tokens that the service makes up, and the clock's reading, are part of a request.
pub data Request : Type 0 where
  invite : (fresh_id token owner_id : String) → InviteUserDto → (now : ℕ) → Request
  accept_by_token : (user_id token : String) (now : ℕ) → Request
  accept_by_id decline : (user_id invite_id : String) → Request
  revoke unlink : (owner_id share_id : String) → Request
  leave : (user_id share_id : String) → Request
  make_link : (fresh_id token owner_id : String) → CreatePublicLinkDto → (now : ℕ) → Request
  mark : (share_id caller_id : String) (now : ℕ) → Request

-- A row is an invitation that waits, an accepted share, or a public link; only the accepted share
-- has given up its token.
pub data HasShape : SharedAccess → Type 0 where
  is_invitation :
      {s : SharedAccess} (email token : String) (expires : ℕ)
      → s.is_accepted ≡ false
      → s.is_public_link ≡ false
      → s.invite_email ≡ some email
      → s.invite_token ≡ some token
      → s.invite_expires ≡ some expires
      → HasShape s
  is_share :
      {s : SharedAccess} (user_id : String)
      → s.is_accepted ≡ true
      → s.is_public_link ≡ false
      → s.shared_with_id ≡ some user_id
      → s.invite_email ≡ none
      → s.invite_token ≡ none
      → s.invite_expires ≡ none
      → HasShape s
  is_link :
      {s : SharedAccess} (token : String) (expires : ℕ)
      → s.is_accepted ≡ false
      → s.is_public_link ≡ true
      → s.shared_with_id ≡ none
      → s.invite_email ≡ none
      → s.invite_token ≡ some token
      → s.invite_expires ≡ some expires
      → HasShape s

abbrev pub Apart : SharedAccess → SharedAccess → Type 0
Apart r s = clashes r s ≡ false

pub record IsTable (shares : Shares) : Type 0 where
  pub shaped : All HasShape shares
  pub apart : Pairs Apart shares

module _ (lower : String → String) (plus_days : ℕ → ℕ → ℕ) where
  abbrev pub handle : Request → List User → Shares → Result Shares
  handle (invite fresh_id token owner_id dto now) users shares =
      invite_user plus_days fresh_id token owner_id dto now users shares
  handle (accept_by_token user_id token now) users shares =
      accept_invitation lower user_id token now users shares
  handle (accept_by_id user_id invite_id) users shares =
      accept_invite user_id invite_id users shares
  handle (decline user_id invite_id) users shares = decline_invite user_id invite_id users shares
  handle (revoke owner_id share_id) users shares = revoke_access owner_id share_id shares
  handle (unlink owner_id share_id) users shares = delete_public_link owner_id share_id shares
  handle (leave user_id share_id) users shares = remove_my_access user_id share_id shares
  handle (make_link fresh_id token owner_id dto now) users shares =
      create_public_link plus_days fresh_id token owner_id dto now shares
  handle (mark share_id caller_id now) users shares = mark_viewed share_id caller_id now shares

  -- The tables that requests lead to from the empty one, whatever the users are at each of them; a
  -- request that is refused leaves its table.
  pub data Reach : Shares → Type 0 where
    nobody : Reach []
    request :
        {shares shares' : Shares} (users : List User) (r : Request)
        → Reach shares
        → handle r users shares ≡ ok shares'
        → Reach shares'
