-- ===== src/Restapi/ParamNames.antt =====
-- The names of the parameters of a search, of tracer/restapi/structs.go: a data type for the texts.
use goapptrace.Base.{ℕ, zero, suc, ◌≡◌, ◌↔◌, refl, sym, ap, ◌∙◌, ==_iff, Bool, true, ◌==◌}
use goapptrace.Base.Maps.{Eq}

pub data Param : Type 0 where
  gid_param : Param
  min_id_param : Param
  max_id_param : Param
  min_timestamp_param : Param
  max_timestamp_param : Param
  limit_param : Param
  sort_param : Param
  order_param : Param
  sql_param : Param

abbrev pub param_index : Param → ℕ
param_index gid_param = 0
param_index min_id_param = 1
param_index max_id_param = 2
param_index min_timestamp_param = 3
param_index max_timestamp_param = 4
param_index limit_param = 5
param_index sort_param = 6
param_index order_param = 7
param_index sql_param = 8

abbrev param_at : ℕ → Param
param_at zero = gid_param
param_at (suc zero) = min_id_param
param_at (suc (suc zero)) = max_id_param
param_at (suc (suc (suc zero))) = min_timestamp_param
param_at (suc (suc (suc (suc zero)))) = max_timestamp_param
param_at (suc (suc (suc (suc (suc zero))))) = limit_param
param_at (suc (suc (suc (suc (suc (suc zero)))))) = sort_param
param_at (suc (suc (suc (suc (suc (suc (suc zero))))))) = order_param
param_at (suc (suc (suc (suc (suc (suc (suc (suc n)))))))) = sql_param

at-index : (k : Param) → param_at (param_index k) ≡ k
at-index gid_param = refl
at-index min_id_param = refl
at-index max_id_param = refl
at-index min_timestamp_param = refl
at-index max_timestamp_param = refl
at-index limit_param = refl
at-index sort_param = refl
at-index order_param = refl
at-index sql_param = refl

abbrev pub same_param : Param → Param → Bool
same_param j k = param_index j == param_index k

pub same_param_iff : (j k : Param) → (same_param j k ≡ true) ↔ (j ≡ k)
same_param_iff j k = (
  λ e. sym (at-index j) ∙ ap param_at ((==_iff (param_index j) (param_index k)).0 e) ∙ at-index k,
  λ e. (==_iff (param_index j) (param_index k)).1 (ap param_index e),
)

instance abbrev pub param_eq : Eq Param
param_eq = record { beq = same_param; beq_iff = same_param_iff }
