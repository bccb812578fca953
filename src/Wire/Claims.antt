-- ===== src/Wire/Claims.antt =====
-- Reading a claim set: the struct tags of Claims in claims.go.
use internal_jwt_handling.Base.{none}
use internal_jwt_handling.Result.{Result, ok, ◌>>=◌}
use internal_jwt_handling.Wire.{Payload, find, as_string, as_date}
use internal_jwt_handling.Claims.{Claims, RegisteredClaims}

-- encoding/json on a *Claims, of an object whose keys are spelled as the tags. `read` is what it
-- does for the embedded jwt.RegisteredClaims.
unfoldable pub decode_claims : (Payload → Result RegisteredClaims) → Payload → Result Claims
decode_claims read p = do
  registered ← read p
  token_use ← as_string (find "token_use" none p)
  client_id ← as_string (find "client_id" none p)
  txn ← as_string (find "txn" none p)
  scope ← as_string (find "scope" none p)
  source_jti ← as_string (find "src_jti" none p)
  source_expires_at ← as_date (find "src_exp" none p)
  origin_sub ← as_string (find "origin_sub" none p)
  tenant_public_id ← as_string (find "tenant_id" none p)
  event_public_id ← as_string (find "event_id" none p)
  ok (record {
    registered = registered;
    token_use = token_use;
    client_id = client_id;
    txn = txn;
    scope = scope;
    source_jti = source_jti;
    source_expires_at = source_expires_at;
    origin_sub = origin_sub;
    tenant_public_id = tenant_public_id;
    event_public_id = event_public_id;
  })
