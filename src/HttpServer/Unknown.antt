-- ===== src/HttpServer/Unknown.antt =====
-- The answer of httpserver/gin.go to a request for which there is no route.
use gobox.Base.{ℕ, ◌≡◌, refl, not, ◌&&◌, List, [], ◌∷◌, if◌then◌else◌}
use gobox.Base.Text.{Text, codes, is_empty}
use gobox.HttpServer.{GinConfig, default_gin_config}

-- A redirect to an address, or a JSON object by its fields.
pub data Answer : Type 0 where
  redirect : (status : ℕ) → (address : Text) → Answer
  json : (status : ℕ) → (fields : List (Text × Text)) → Answer

-- The handler of `setupNoRouteHandler`, for the path of a request.
unfoldable pub no_route_answer : GinConfig → Text → Answer
no_route_answer config path =
    if not (is_empty config.no_route_to) && not config.no_route_json
    then redirect 307 config.no_route_to
    else json 404 (
        (codes "error", codes "Not Found")
        ∷ (codes "message", codes "The requested resource was not found")
        ∷ (codes "path", path)
        ∷ [])

-- With the defaults no request is redirected: the answer is 404 with the path.
default_not_found :
    (path : Text)
    → no_route_answer default_gin_config path
      ≡ json 404 (
          (codes "error", codes "Not Found")
          ∷ (codes "message", codes "The requested resource was not found")
          ∷ (codes "path", path)
          ∷ [])
unfolding no_route_answer default_gin_config
default_not_found path = refl
