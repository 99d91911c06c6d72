-- ===== src/Session/Memory.antt =====
-- A store in memory and an issuer that grants every refresh: they meet the contract of
-- oidcauth/session.go.
use gobox.Base.{ℕ, suc, ◌≡◌, refl, ◌∙◌, true, false, Option, none, some, List, arith, ltb}
use gobox.Base.Text.{Text, codes, text_eq}
use gobox.Base.Int.{pos}
use gobox.Base.Errors.{Error, Result, ok, err, sentinel, error_is}
use gobox.Base.Dict.{
  lookup, insert, delete, retain, lookup-insert, lookup-delete, lookup-delete_self,
}
use gobox.Claims.{no_claims}
use gobox.Session.{Instant, Session, OauthToken}
use gobox.Session.Manager.{Services, Callback, session_not_found}
use gobox.Session.Contract.{Same, LockOutcome, not_run, kept, saved, aborted, Contract}

pub record World : Type 0 where
  pub sessions : List (Text × Session)
  pub granted : ℕ

abbrev pub stored : World → Text → Option Session
stored w id = lookup id w.sessions

abbrev pub granted_token : OauthToken
granted_token = record {
  access_token = codes "a2";
  token_type = codes "Bearer";
  refresh_token = codes "r2";
  expiry = 9000;
  extra_id_token = none;
  extra_refresh_expires_in = some (pos 60000000);
  extra_scope = some (codes "openid email");
}

unfoldable pub find : World → Text → Result Session
find w id = elim (lookup id w.sessions) [ none ↦ err (sentinel session_not_found) | some s ↦ ok s ]

unfoldable pub touch_at : World → Text → Instant → Option Session → World × Option Error
touch_at w id t none = (w, none)
touch_at w id t (some s) =
    (record w { sessions = insert id (record s { last_seen_at = t }) w.sessions }, none)

unfoldable pub commit :
    Text
    → World × Option Session × Result (Option Session)
    → World × Option Session × Result (Unit {0})
commit id (w, r, ok none) = (w, r, ok tt)
commit id (w, r, ok (some s)) = (record w { sessions = insert id s w.sessions }, r, ok tt)
commit id (w, r, err e) = (w, r, err e)

unfoldable pub lock_at :
    World
    → Text
    → Option Session
    → Callback World
    → Option Session
    → World × Option Session × Result (Unit {0})
lock_at w id r fn none = (w, r, err (sentinel session_not_found))
lock_at w id r fn (some s) = commit id (fn w r s)

abbrev pub memory : Services World
memory = record {
  create = λ w s. (record w { sessions = insert s.id s w.sessions }, none);
  get = find;
  touch = λ w id t. touch_at w id t (lookup id w.sessions);
  with_lock = λ w id r fn. lock_at w id r fn (lookup id w.sessions);
  delete = λ w id. (record w { sessions = delete id w.sessions }, none);
  delete_expired =
      λ w now. (record w { sessions = retain (λ s. ltb now s.expires_at) w.sessions }, ok (pos 0));
  refresh_grant = λ w t. (record w { granted = suc w.granted }, ok granted_token);
  verify = λ w t. (w, ok no_claims);
  new_id = λ w. (w, codes "f");
  is_uuid = λ t. true;
  wall = λ w. 5000;
}

Same-refl : (w : World) → Same memory stored (λ x. x.granted) w w
Same-refl w = record { stored = λ j. refl; granted = refl }

commit-LockOutcome :
    (w : World) (id : Text) (r : Option Session) (fn : Callback World) (s : Session)
    (t : World × Option Session × Result (Option Session))
    → stored w id ≡ some s
    → fn w r s ≡ t
    → LockOutcome memory stored
        (λ x. x.granted)
        w
        id
        r
        fn
        (commit id t).0
        (commit id t).1
        (commit id t).2
unfolding commit
commit-LockOutcome w id r fn s (w₁, r₁, ok none) found run = kept s w₁ found run refl (Same-refl w₁)
commit-LockOutcome w id r fn s (w₁, r₁, ok (some s')) found run =
    saved s s' w₁ found run refl (λ j. lookup-insert id j s' w₁.sessions) refl
commit-LockOutcome w id r fn s (w₁, r₁, err e) found run =
    aborted s w₁ e found run refl (Same-refl w₁)

lock_at-LockOutcome :
    (w : World) (id : Text) (r : Option Session) (fn : Callback World) (o : Option Session)
    → stored w id ≡ o
    → LockOutcome memory stored
        (λ x. x.granted)
        w
        id
        r
        fn
        (lock_at w id r fn o).0
        (lock_at w id r fn o).1
        (lock_at w id r fn o).2
unfolding lock_at
lock_at-LockOutcome w id r fn none e = not_run (sentinel session_not_found) refl refl (Same-refl w)
lock_at-LockOutcome w id r fn (some s) e = commit-LockOutcome w id r fn s (fn w r s) e refl

touch_at-others :
    (w : World) (id j : Text) (t : Instant) (o : Option Session)
    → text_eq id j ≡ false
    → stored (touch_at w id t o).0 j ≡ stored w j
unfolding touch_at
touch_at-others w id j t none other = refl
touch_at-others w id j t (some s) other = lookup-insert id j _ w.sessions ∙ (rw other)

touch_at-granted :
    (w : World) (id : Text) (t : Instant) (o : Option Session)
    → (touch_at w id t o).0.granted ≡ w.granted
unfolding touch_at
touch_at-granted w id t none = refl
touch_at-granted w id t (some s) = refl

find_missing :
    (w : World) (id : Text)
    → stored w id ≡ none
    → (e : Error) × (find w id ≡ err e) × (error_is e session_not_found ≡ true)
unfolding find error_is
find_missing w id h = (sentinel session_not_found, rw (h, find), refl)

find_found : (w : World) (id : Text) (s : Session) → find w id ≡ ok s → stored w id ≡ some s
unfolding find
find_found w id s e = ground arith

pub memory-Contract : Contract memory stored (λ x. x.granted)
memory-Contract = record {
  get_found = find_found;
  get_missing = find_missing;
  touch_others = λ w id j t other. touch_at-others w id j t (lookup id w.sessions) other;
  touch_grants = λ w id t. touch_at-granted w id t (lookup id w.sessions);
  delete_removes = λ w id _. lookup-delete_self id w.sessions;
  delete_others = λ w id j other. lookup-delete id j w.sessions ∙ (rw other);
  delete_grants = λ w id. refl;
  lock = λ w id r fn. lock_at-LockOutcome w id r fn (lookup id w.sessions) refl;
  refresh_stored = λ w t j. refl;
  refresh_granted = λ w t. refl;
  verify_keeps = λ w t. Same-refl w;
}
