-- ===== src/Types/Query/Requests/Memory.antt =====
-- What the unset memory of a query decides.
use ppi_chi_nettest.Base.{◌≡◌, ◌↔◌, true, arith}
use ppi_chi_nettest.Bitfield.{Bitfield}
use ppi_chi_nettest.Types.Selection
use ppi_chi_nettest.Types.Selection.{eq-set_low_iff}
use ppi_chi_nettest.Types.Query
use ppi_chi_nettest.Types.Query.{
  DomainQuery, get_local_id, get_global, get_range, get_global_bcast, get_direct_id,
  get_direct_hash,
}
use ppi_chi_nettest.Types.Query.Requests.{
  Request, local_id, global, range, global_bcast, direct_id, direct_hash, build, IsRequest,
  unset_part,
}

-- Two queries built for one request, whose numbers fit 32 bits and whose iteration flags are
-- none of the scope and selection flags, in different memory compare equal exactly when the
-- parts of the selection that the request leaves unset hold the same.
pub build-eq_iff :
    (b : Bitfield) (m n : DomainQuery) (r : Request)
    → IsRequest r
    → (Query.eq (build b m r) (build b n r) ≡ true) ↔ (unset_part r m.sel ≡ unset_part r n.sel)
unfolding build get_local_id get_global get_range get_global_bcast get_direct_id get_direct_hash
    Query.eq Selection.eq
build-eq_iff b m n (local_id s i) h = (λ e. ground arith, λ e. ground arith)
build-eq_iff b m n (global s f) h = (λ e. ground arith, λ e. ground arith)
build-eq_iff b m n (range s o c f) h = (λ e. ground arith, λ e. ground arith)
build-eq_iff b m n global_bcast h = (λ e. ground arith, λ e. ground arith)
build-eq_iff b m n (direct_id s i f) h = (λ e. ground arith, λ e. ground arith)
build-eq_iff b m n (direct_hash s k f) h = (λ e. ground arith, λ e. ground arith)
