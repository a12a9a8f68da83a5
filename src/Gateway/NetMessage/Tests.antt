-- ===== src/Gateway/NetMessage/Tests.antt =====
-- gateway_server/sdk/net_message.cc: two messages that share a long vector, and a short one.
use cpp_framework.Prelude.{zero, suc, ◌≡◌, none, some, [], ◌∷◌, List, replicate, arith}
use cpp_framework.Gateway.NetMessage.{Store, message_at, contents}
use cpp_framework.Gateway.NetMessage.Valid.{IsValid}
use cpp_framework.Gateway.NetMessage.Values.{Op, run, value_run, run-values}

abbrev store : Store
store = record {
  messages =
      record { static_data = []; dynamic_data = some 0 }
      ∷ record { static_data = 4 ∷ []; dynamic_data = some 0 }
      ∷ record { static_data = 1 ∷ 2 ∷ 3 ∷ []; dynamic_data = none }
      ∷ [];
  vectors = replicate 200 7 ∷ [];
}

store-IsValid : IsValid store
unfolding message_at
store-IsValid zero = omega arith
store-IsValid (suc zero) = omega arith
store-IsValid (suc (suc zero)) = tt
store-IsValid (suc (suc (suc i))) = tt

abbrev ops : List Op
ops = Op.writes 1 (9 ∷ []) ∷ Op.swaps 0 2 ∷ Op.assigns 1 2 ∷ Op.writes 2 (8 ∷ []) ∷ Op.clears 0 ∷ []

run-values_example : contents 1 (run ops store) ≡ value_run ops (λ j. contents j store) 1
run-values_example = run-values ops store 1 (ground arith) store-IsValid
