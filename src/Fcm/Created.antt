-- ===== src/Fcm/Created.antt =====
-- The clients that New of fcm/fcm.go builds.
use gobox.Base.{
  ◌≡◌, ◌⊎◌, refl, true, false, ◌&&◌, ◌||◌, not, none, List, [], ◌∷◌, ◌++◌, if◌then◌else◌, arith,
  Bool-cases, Option-cases, inl, inr, ◌∙◌, ap, sym,
}
use gobox.Base.Errors.{Result, ok, err, sentinel, Result-cases}
use gobox.Base.Text.{
  Text, codes, is_empty, text_eq, text_eq_iff, trim_space, trim_left, trim_right, is_space,
}
use gobox.Fcm.Client.{
  Keys, ServiceAccount, Config, Client, validate_key, parse_service_account, resolve_project_id,
  client_of, new_client, first_non_empty,
}

-- An account that can sign, and the project of a client that stands for it.
pub record Ready (v : Keys) (cfg : Config) (c : Client) : Type 0 where
  pub account : ServiceAccount
  pub read : v.unmarshal_account cfg.credentials ≡ ok account
  pub kind : account.type_ ≡ codes "service_account"
  pub email : is_empty account.client_email ≡ false
  pub key : is_empty account.private_key ≡ false
  pub signs : validate_key v account.private_key ≡ none
  pub project : is_empty c.project_id ≡ false
  pub same_project : (is_empty account.project_id ≡ true) ⊎ (c.project_id ≡ account.project_id)
  pub token_url : is_empty c.token_url ≡ false

record IsSigning (v : Keys) (raw : _) (account : ServiceAccount) : Type 0 where
  read : v.unmarshal_account raw ≡ ok account
  kind : account.type_ ≡ codes "service_account"
  email : is_empty account.client_email ≡ false
  key : is_empty account.private_key ≡ false
  signs : validate_key v account.private_key ≡ none

parse_service_account-IsSigning :
    (v : Keys) (raw : _) (account : ServiceAccount)
    → parse_service_account v raw ≡ ok account
    → IsSigning v raw account
unfolding parse_service_account
parse_service_account-IsSigning v raw account h = elim (Result-cases (v.unmarshal_account raw)) [
  | inr (e, bad) ↦ let x = rw (parse_service_account, bad) at h in absurd (cc)
  | inl (found, read) ↦
      elim (Bool-cases (
        not (text_eq found.type_ (codes "service_account"))
        || is_empty found.client_email
        || is_empty found.private_key)) [
          | inl no_ ↦ let x = rw (parse_service_account, read, no_) at h in absurd (cc)
          | inr yes_ ↦ elim (Option-cases (validate_key v found.private_key)) [
            | inr (e, bad) ↦ let x = rw (parse_service_account, read, yes_, bad) at h in absurd (cc)
            | inl signs ↦
                let x = rw (parse_service_account, read, yes_, signs) at h in
                let same : found ≡ account = (cc) in
                rw (← same) (record {
                  read = read;
                  kind = ground (arith, yes_, text_eq_iff found.type_ (codes "service_account"));
                  email = ground (arith, yes_);
                  key = ground (arith, yes_);
                  signs = signs;
                })
          ]
        ]
]

-- What is left once the project is chosen.
abbrev checked_project : Text → Text → Result Text
checked_project project_id account =
    if is_empty project_id
    then err (sentinel "ErrMissingProject")
    else if not (is_empty account) && not (text_eq project_id account)
    then err (sentinel "ErrProjectMismatch")
    else ok project_id

checked_project_lem :
    (chosen account project_id : Text)
    → checked_project chosen account ≡ ok project_id
    → (is_empty project_id ≡ false) × ((is_empty account ≡ true) ⊎ (project_id ≡ account))
checked_project_lem chosen account project_id h = elim (Bool-cases (is_empty chosen)) [
  | inl none_ ↦ let x = rw (checked_project, none_) at h in absurd (cc)
  | inr some_ ↦ elim (Bool-cases (not (is_empty account) && not (text_eq chosen account))) [
    | inl other ↦ let x = rw (checked_project, some_, other) at h in absurd (cc)
    | inr fits ↦
        let x = rw (checked_project, some_, fits) at h in
        let same : chosen ≡ project_id = (cc) in
        rw (← same) (
          some_,
          elim (Bool-cases (is_empty account)) [
            | inl without ↦ inl without
            | inr with_one ↦ inr (ground (arith, fits, with_one, text_eq_iff chosen account))
          ],
        )
  ]
]

resolve_project_id_lem :
    (configured account project_id : Text)
    → resolve_project_id configured account ≡ ok project_id
    → (is_empty project_id ≡ false) × ((is_empty account ≡ true) ⊎ (project_id ≡ account))
unfolding resolve_project_id
resolve_project_id_lem configured account project_id h =
    checked_project_lem
      (if is_empty (trim_space configured) then account else trim_space configured) account
      project_id h

first_non_empty_lem :
    (values : List Text) (last : Text)
    → is_empty (trim_space last) ≡ false
    → is_empty (first_non_empty (values ++ last ∷ [])) ≡ false
unfolding first_non_empty
first_non_empty_lem [] last h = rw (first_non_empty, h) h
first_non_empty_lem (value ∷ values) last h = elim (Bool-cases (is_empty (trim_space value))) [
  | inl blank ↦ rw (first_non_empty, blank) (first_non_empty_lem values last h)
  | inr some_ ↦ rw (first_non_empty, some_) some_
]

default_token_url_named :
    is_empty (trim_space (codes "https://oauth2.googleapis.com/token")) ≡ false
unfolding trim_space trim_left trim_right is_space
default_token_url_named = refl

abbrev result_or : Client → Result Client → Client
result_or c (ok d) = d
result_or c (err e) = c

built :
    (path_escape : Text → Text) (cfg : Config) (account : ServiceAccount) (project_id : Text)
    (c : Client)
    → client_of path_escape cfg account (ok project_id) ≡ ok c
    → (c.project_id ≡ project_id) × (is_empty c.token_url ≡ false)
built path_escape cfg account project_id c h =
    let named =
      first_non_empty_lem (cfg.token_url ∷ account.token_uri ∷ [])
        (codes "https://oauth2.googleapis.com/token") default_token_url_named in
    let same = ap (result_or c) h in
    (sym (ap (λ k. k.project_id) same), sym (ap (λ k. is_empty k.token_url) same) ∙ named)

-- A client that New builds stands for a service account that the credentials hold, with an address and
-- a key that can sign; its project is named, and is the account's if that names one, and it has an
-- address for tokens.
new_client-Ready :
    (v : Keys) (path_escape : Text → Text) (cfg : Config) (c : Client)
    → new_client v path_escape cfg ≡ ok c
    → Ready v cfg c
unfolding new_client
new_client-Ready v path_escape cfg c h =
    elim (Result-cases (parse_service_account v cfg.credentials)) [
      | inr (e, bad) ↦ let x = rw (new_client, bad) at h in absurd (cc)
      | inl (account, read) ↦
          elim (Result-cases (resolve_project_id cfg.project_id account.project_id)) [
            | inr (e, bad) ↦ let x = rw (new_client, read, bad) at h in absurd (cc)
            | inl (project_id, is) ↦
                let x = rw (new_client, read, is) at h in
                let signing = parse_service_account-IsSigning v cfg.credentials account read in
                let (project, same) =
                  resolve_project_id_lem cfg.project_id account.project_id project_id is in
                let (a, b) = built path_escape cfg account project_id c x in
                record {
                  account = account;
                  read = signing.read;
                  kind = signing.kind;
                  email = signing.email;
                  key = signing.key;
                  signs = signing.signs;
                  project = rw (a) project;
                  same_project = rw (a) same;
                  token_url = b;
                }
          ]
    ]
