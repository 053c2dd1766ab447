-- ===== src/Lua/Fetch.antt =====
-- lua/http.go: luaHTTPGet.
use logd_go.Base.{
  ℕ, ◌||◌, not, Option, none, some, List, [], ◌∷◌, ◌++◌, Bytes, codes, ltb, ◌⊎◌, inl, inr,
  if◌then◌else◌, ◌>>=◌,
}
use logd_go.Lua.Arguments.{Values, argument, get_arg_string}

-- A response of `net/http`, with what ReadAll makes of its body: an error or its text.
pub record Reply : Type 0 where
  pub status_code : ℕ
  pub status : Bytes
  pub body : Bytes ⊎ Bytes

-- The error of luaHTTPGet, or the body of the response.
accepted_body : Bytes → Reply → Bytes → Bytes ⊎ Bytes
accepted_body url r b =
    if ltb r.status_code 200 || not (ltb r.status_code 300)
    then inl (codes "request to '" ++ (url ++ (codes "' status: " ++ r.status)))
    else inr b

reply_body : Bytes → Bytes ⊎ Reply → Bytes ⊎ Bytes
unfolding accepted_body
reply_body url (inl e) = inl e
reply_body url (inr r) = read_body r.body
  where
    read_body : Bytes ⊎ Bytes → Bytes ⊎ Bytes
    read_body (inl e) = inl e
    read_body (inr b) = accepted_body url r b

-- With the table of the second argument, if there is one, as its pairs; with what `http.NewRequest` says of
-- the URL; and with the server, a function of the URL and the headers.
module _ (v : Values) (pairs : v.Value → Option (List (v.Value × v.Value)))
    (new_request : Bytes → Option Bytes)
    (server : Bytes → List (Bytes × Bytes) → Bytes ⊎ Reply) where
  open v use {Value, nil, of_string, to_string}

  -- The loop over the headers; a key or value that is no text is an error in the script.
  add_headers : List (Value × Value) → Option (List (Bytes × Bytes))
  add_headers [] = some []
  add_headers ((a, b) ∷ rest) = do
    k ← to_string a
    x ← to_string b
    hs ← add_headers rest
    some ((k, x) ∷ hs)

  abbrev pub headers : Option (List (Value × Value)) → Option (List (Bytes × Bytes))
  unfolding add_headers
  headers none = some []
  headers (some ps) = add_headers ps

  abbrev pub get_results : Bytes ⊎ Bytes → List Value
  get_results (inl e) = nil ∷ of_string e ∷ []
  get_results (inr b) = of_string b ∷ nil ∷ []

  get_parsed : Bytes → Option Bytes → List Value → Option (List Value)
  unfolding reply_body headers
  get_parsed url (some e) xs = some (get_results (inl e))
  get_parsed url none xs = do
    hs ← headers (pairs (argument v 2 xs))
    some (get_results (reply_body url (server url hs)))

  unfoldable lua_http_get : List Value → Option (List Value)
  unfolding get_parsed
  lua_http_get xs = do url ← get_arg_string v 1 xs; get_parsed url (new_request url) xs
