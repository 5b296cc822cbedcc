-- ===== src/ResticApi/Server/Responses.antt =====
-- The response to a read.
use yucca.Common.{◌≡◌, ◌↔◌, Option, none, String, arith}
use yucca.ResticApi.Types.{GetOutput}
use yucca.ResticApi.Server.{respond_with_object, not_modified}

-- A request with no `If-None-Match` header is answered "not modified", with no body, exactly when the
-- store sent no ETag.
pub respond_with_object-not_modified :
    (o : GetOutput) (range : Option String)
    → (respond_with_object o none range ≡ not_modified) ↔ (o.etag ≡ none)
unfolding respond_with_object
respond_with_object-not_modified o range = ground arith
