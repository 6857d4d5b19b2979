-- ===== src/Context.antt =====
-- The trusted request context and the principal: src/nexusmcp/shared/request_context.py and
-- src/nexusmcp/modules/identity/domain.py.
use nexus_mcp.Base.{String, is_blank}
use nexus_mcp.Kinds.{PrincipalType}
use nexus_mcp.Result.{Result, ◌>>◌, reject_if}

pub record ActorContext : Type 0 where
  pub request_id : String
  pub trace_id : String
  pub tenant_id : String
  pub principal_id : String
  pub authn_method : String
  pub principal_type : String

pub record InternalPrincipal : Type 0 where
  pub id : String
  pub tenant_id : String
  pub principal_type : PrincipalType
  pub authn_method : String

-- `InternalPrincipal.__post_init__`
pub check_principal : InternalPrincipal → Result (Unit {0})
check_principal p = do
  reject_if (is_blank p.id) "principal id must not be blank"
  reject_if (is_blank p.tenant_id) "principal tenant id must not be blank"
  reject_if (is_blank p.authn_method) "principal authentication method must not be blank"
