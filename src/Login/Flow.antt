-- ===== src/Login/Flow.antt =====
-- oidcauth/flow.go: the flow of the authorization code. `E` is the endpoint of a provider.
use gobox.Base.{List, [], ◌∷◌, ◌++◌, if◌then◌else◌}
use gobox.Base.Text.{Text, codes, is_empty}
use gobox.Base.Errors.{Result, ok, err}
use gobox.Session.{OauthToken}

-- oauth2.Config
pub record OauthConfig (E : Type 0) : Type 0 where
  pub client_id : Text
  pub client_secret : Text
  pub redirect_url : Text
  pub scopes : List Text
  pub endpoint : E

pub record Flow (E : Type 0) : Type 0 where
  pub oauth2_config : OauthConfig E
  pub end_session_url : Text

pub record FlowConfig : Type 0 where
  pub issuer_url : Text
  pub client_id : Text
  pub client_secret : Text
  pub redirect_uri : Text
  pub scopes : List Text

abbrev default_scopes : List Text
default_scopes = codes "openid" ∷ codes "profile" ∷ codes "email" ∷ []

-- What is used of go-oidc, oauth2 and net/url: a provider `P` by its issuer, its endpoint, its
-- end_session_endpoint, the options of PKCE, and the encoding of the parameters of an address, which
-- sorts them.
pub record Oidc (W P E : Type 0) : Type 0 where
  pub new_provider : W → Text → W × Result P
  pub endpoint : P → E
  pub end_session_endpoint : P → Result Text
  pub auth_code_url : OauthConfig E → Text → Text → Text
  pub exchange : W → OauthConfig E → Text → Text → W × Result OauthToken
  pub refresh_token : W → OauthConfig E → Text → W × Result OauthToken
  pub encode : List (Text × Text) → Text

abbrev pub scopes_of : List Text → List Text
scopes_of [] = default_scopes
scopes_of (s ∷ scopes) = s ∷ scopes

module _ {W P E : Type 0} (v : Oidc W P E) where
  abbrev discovered : FlowConfig → W × Result P → W × Result (Flow E)
  discovered cfg (w, err e) = (w, err e)
  discovered cfg (w, ok provider) = elim (v.end_session_endpoint provider) [
    | err e ↦ (w, err e)
    | ok url ↦ (
      w,
      ok (record {
        oauth2_config = record {
          client_id = cfg.client_id;
          client_secret = cfg.client_secret;
          redirect_url = cfg.redirect_uri;
          scopes = scopes_of cfg.scopes;
          endpoint = v.endpoint provider;
        };
        end_session_url = url;
      }),
    )
  ]

  -- `NewFlow`
  unfoldable pub new_flow : FlowConfig → W → W × Result (Flow E)
  new_flow cfg w = discovered cfg (v.new_provider w cfg.issuer_url)

  -- `AuthCodeURL`, `Exchange` and `Refresh`: the verifier is presented as its challenge and then itself.
  unfoldable pub auth_code_url : Flow E → Text → Text → Text
  auth_code_url f state verifier = v.auth_code_url f.oauth2_config state verifier

  unfoldable pub exchange : Flow E → W → Text → Text → W × Result OauthToken
  exchange f w code verifier = v.exchange w f.oauth2_config code verifier

  unfoldable pub refresh_flow : Flow E → W → Text → W × Result OauthToken
  refresh_flow f w refresh_token = v.refresh_token w f.oauth2_config refresh_token

  -- `EndSessionURL`
  unfoldable pub end_session_url : Flow E → Text → Text → Text
  end_session_url f id_token post_logout_redirect_uri =
      let params =
        (codes "client_id", f.oauth2_config.client_id)
        ∷ (codes "post_logout_redirect_uri", post_logout_redirect_uri)
        ∷ [] in
      let hinted =
        if is_empty id_token then params else params ++ (codes "id_token_hint", id_token) ∷ [] in
      if is_empty f.end_session_url then [] else f.end_session_url ++ 63 ∷ v.encode hinted
