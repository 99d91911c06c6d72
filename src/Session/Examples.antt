-- ===== src/Session/Examples.antt =====
-- The session theorems on a store in memory.
use gobox.Base.{
  ◌+◌, ◌≤◌, ◌≡◌, ◌≢◌, ◌⊎◌, refl, true, false, none, some, [], ◌∷◌, arith, length, Option,
}
use gobox.Base.Text.{Text, codes, text_eq, is_empty, fields}
use gobox.Base.Int.{pos, pos_part, is_pos}
use gobox.Base.Errors.{ok, err, sentinel}
use gobox.Base.Dict.{lookup, insert, delete}
use gobox.Claims.{no_claims}
use gobox.Session.{
  Session, Settings, compute_expires_at, is_expired, renewed, default_refresh_token_ttl,
}
use gobox.Session.Manager.{
  locked_refresh, after_grant, after_lock, refresh, revalidate, after_revalidate, resolve_loaded,
  resolve_got, resolve, session_not_found, Services,
}
use gobox.Session.Memory.{
  World, granted_token, stored, memory, memory-Contract, find, touch_at, commit, lock_at,
}
use gobox.Session.Expiry.{compute_expires_at_bounds}
use gobox.Session.Resolve.{IsNotFound, resolve-IsNotFound}
use gobox.Session.Success.{Refreshed, refresh-Refreshed}
use gobox.Session.Resolved.{Resolved, resolve-Resolved}
use gobox.Session.Cleanup.{tick, done, run_session_cleanup}
use gobox.Session.Swept.{kept_of, run_session_cleanup-kept}
use gobox.Session.Renewal.{refresh_twice}

abbrev settings : Settings
settings = record {
  has_verifier = true;
  client_id = codes "app";
  idle_timeout = pos 5000;
  absolute_timeout = pos 0;
}

abbrev alice : Session
alice = record {
  id = codes "f";
  tokens = record {
    access_token = codes "a1";
    refresh_token = codes "r1";
    id_token = codes "i1";
    token_type = codes "Bearer";
    scopes = [];
    access_token_expires_at = 2000;
    refresh_token_expires_at = 8000;
  };
  claims = no_claims;
  expires_at = 8000;
  created_at = 1000;
  updated_at = 1000;
  last_seen_at = 0;
}

abbrev world : World
world = record { sessions = (codes "f", alice) ∷ []; granted = 0 }

abbrev renewed_alice : Session
renewed_alice = record alice {
  tokens = record {
    access_token = codes "a2";
    refresh_token = codes "r2";
    id_token = codes "i1";
    token_type = codes "Bearer";
    scopes = codes "openid" ∷ codes "email" ∷ [];
    access_token_expires_at = 9000;
    refresh_token_expires_at = 60000005000;
  };
  expires_at = 60000005000;
  updated_at = 3000;
  last_seen_at = 3000;
}

abbrev renewed_world : World
renewed_world = record { sessions = (codes "f", renewed_alice) ∷ []; granted = 1 }

refresh_run :
    refresh memory settings 3000 world (codes "f") ≡ (renewed_world, ok (some renewed_alice))
unfolding refresh locked_refresh after_grant after_lock lock_at commit lookup insert text_eq renewed
    is_expired fields
refresh_run = refl

refresh_again_run :
    refresh memory settings 4000 renewed_world (codes "f")
    ≡ (renewed_world, ok (some renewed_alice))
unfolding refresh locked_refresh after_grant after_lock lock_at commit lookup insert text_eq renewed
    is_expired fields
refresh_again_run = refl

abbrev seen_alice : Session
seen_alice = record alice { last_seen_at = 1500 }

resolve_run :
    resolve memory settings 1500 world (codes "f")
    ≡ (record world { sessions = (codes "f", seen_alice) ∷ [] }, ok (some seen_alice))
unfolding resolve resolve_got resolve_loaded revalidate after_revalidate touch_at find lookup insert
    text_eq is_expired
resolve_run = refl

compute_expires_at_bounds_example :
    ((is_pos settings.absolute_timeout ≡ false)
      ⊎ (compute_expires_at settings alice ≤ alice.created_at + pos_part settings.absolute_timeout))
    × ((is_empty alice.tokens.refresh_token ≡ false)
        ⊎ (compute_expires_at settings alice ≤ alice.tokens.access_token_expires_at))
    × ((is_empty alice.tokens.refresh_token ≡ true)
        ⊎ (alice.tokens.refresh_token_expires_at ≡ 0)
        ⊎ (compute_expires_at settings alice ≤ alice.tokens.refresh_token_expires_at))
    × ((is_empty alice.tokens.refresh_token ≡ true)
        ⊎ (alice.tokens.refresh_token_expires_at ≢ 0)
        ⊎ (compute_expires_at settings alice ≤ alice.created_at + default_refresh_token_ttl))
compute_expires_at_bounds_example = compute_expires_at_bounds settings alice

abbrev capped : Settings
capped = record settings { absolute_timeout = pos 7000 }

resolve-IsNotFound_test : IsNotFound (resolve memory settings 8000 world (codes "f")).1
resolve-IsNotFound_test = resolve-IsNotFound memory settings 8000 world (codes "f")

refresh-Refreshed_example :
    (x : Session) × (some renewed_alice ≡ some x)
    × Refreshed memory stored
        (λ w. w.granted)
        memory-Contract
        settings
        3000
        world
        (codes "f")
        renewed_world
        x
refresh-Refreshed_example =
    refresh-Refreshed memory stored (λ w. w.granted) memory-Contract settings 3000 world
      renewed_world (codes "f") (some renewed_alice) refresh_run

resolve-Resolved_example :
    (x : Session) × (some seen_alice ≡ some x)
    × Resolved memory stored
        (λ w. w.granted)
        memory-Contract
        settings
        1500
        world
        (codes "f")
        (record world { sessions = (codes "f", seen_alice) ∷ [] })
        x
resolve-Resolved_example =
    resolve-Resolved memory stored (λ w. w.granted) memory-Contract settings 1500 world
      (record world { sessions = (codes "f", seen_alice) ∷ [] }) (codes "f") (some seen_alice)
      resolve_run

not_g : text_eq (codes "f") (codes "g") ≡ false
unfolding text_eq
not_g = refl

refresh_twice_example :
    (some renewed_alice ≡ some renewed_alice) × (renewed_world.granted ≡ renewed_world.granted)
refresh_twice_example =
    refresh_twice memory stored (λ w. w.granted) memory-Contract settings 3000 4000 world
      renewed_world renewed_world (codes "f") renewed_alice (some renewed_alice) refresh_run
      (omega arith) refresh_again_run

-- A store that is a function.
abbrev function_store : Services (Text → Option Session)
function_store = record {
  create = λ w s. (w, none);
  get = λ w id. err (sentinel session_not_found);
  touch = λ w id t. (w, none);
  with_lock = λ w id r fn. (w, r, ok tt);
  delete = λ w id. (w, none);
  delete_expired = λ w now. ((λ id. kept_of (now ∷ []) (w id)), ok (pos 1));
  refresh_grant = λ w t. (w, ok granted_token);
  verify = λ w t. (w, ok no_claims);
  new_id = λ w. (w, codes "f");
  is_uuid = λ t. true;
  wall = λ w. 0;
}

-- Alice's session ends before the second pass; what comes after the end of the context is not done.
run_session_cleanup-kept_example :
    ((run_session_cleanup function_store settings
          (pos 0)
          (tick 1000 1 ∷ tick 9000 1 ∷ done ∷ tick 9500 1 ∷ [])
          (λ id. some alice)).0
        (codes "f")
      ≡ kept_of (1000 ∷ 9000 ∷ []) (some alice))
    × (length
          (run_session_cleanup function_store settings
            (pos 0)
            (tick 1000 1 ∷ tick 9000 1 ∷ done ∷ tick 9500 1 ∷ [])
            (λ id. some alice)).1
        ≡ 2)
run_session_cleanup-kept_example =
    run_session_cleanup-kept function_store settings (λ w id. w id) (λ w now id. refl) (pos 0)
      (tick 1000 1 ∷ tick 9000 1 ∷ done ∷ tick 9500 1 ∷ []) (λ id. some alice) (codes "f")
