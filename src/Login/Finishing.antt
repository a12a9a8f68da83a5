-- ===== src/Login/Finishing.antt =====
-- gateway_server/service/_login_worker_logicworker.cpp: what the end of a building does, however it is reached.
use cpp_framework.Prelude.{
  ℕ, ◌≡◌, refl, true, none, some, nat_key, bytes_key, Bytes, lookup, assign, signed_le, int_add,
  int_sub, arith, lookup-assign, lookup-erase, bytes_eq_iff,
}
use cpp_framework.Router.Returns.{Returns, returns, Returns->>=, Returns-option}
use cpp_framework.Login.State.{Build, Config, City}
use cpp_framework.Login.Buildings.{
  diamonds_for, pay_diamond, send_paid, build_timer_handle, finish_without_timer, fast_finish,
  erase_first,
}
use cpp_framework.Login.Built.{count, IsKept, count-erase_first, count-remove, erase_first-none}
use cpp_framework.Login.Progress.{finished-IsKept, stop_timer-some}

module _ (c : Config) (now : ℕ) where
  -- The building is one level higher and idle, nothing is left of its timer and its place in the list, and
  -- so many diamonds are spent.
  pub record IsFinished (sn : Bytes) (b : Build) (paid : ℕ) (s t : City) : Type 0 where
    pub build : Build
    pub found : lookup sn t.my_build ≡ some build
    pub raised : build.build_level ≡ int_add b.build_level 1
    pub idle : build.status ≡ 0
    pub quiet : lookup sn t.building_timer ≡ none
    pub unlisted : count sn t.building ≡ 0
    pub spent : (t.assets).diamond ≡ int_sub (s.assets).diamond paid

  handle-IsFinished :
      (sn : Bytes) (b : Build) (paid seconds : ℕ) (s : City)
      → IsKept c sn b
      → lookup sn s.my_build ≡ some b
      → b.status ≡ 1
      → lookup sn s.building_timer ≡ some seconds
      → Returns (IsFinished sn b paid s) (build_timer_handle c now sn (pay_diamond paid s))
  unfolding build_timer_handle pay_diamond
  handle-IsFinished sn b paid seconds s k0 found one timer =
      rw (found, build_timer_handle)
        (Returns->>= (finished-IsKept c now sn b k0 one) λ d k. returns (
          rw
            (stop_timer-some c now sn d seconds
              (record (pay_diamond paid s) { my_build = assign sn d s.my_build }) timer)
            (record {
              build = d;
              found = ground (arith, lookup-assign sn sn d s.my_build, bytes_eq_iff sn sn);
              raised = k.2;
              idle = k.1;
              quiet = ground (arith, lookup-erase sn sn s.building_timer, bytes_eq_iff sn sn);
              unlisted = ground (arith, count-remove sn sn s.building, bytes_eq_iff sn sn);
              spent = refl;
            })))

  -- A building that is being built and is bought off for the diamonds that its time costs is finished, with a
  -- timer or without, if there are as many diamonds, it stands under its own name, the tables have its level
  -- and the next one, and the list of what is being built has it once.
  pub fast_finish-IsFinished :
      (sn : Bytes) (b : Build) (s : City)
      → IsKept c sn b
      → count sn s.building ≡ 1
      → lookup sn s.my_build ≡ some b
      → b.status ≡ 1
      → signed_le 32 (diamonds_for now b) (s.assets).diamond ≡ true
      → Returns (IsFinished sn b (diamonds_for now b) s) (fast_finish c now sn s)
  unfolding fast_finish finish_without_timer send_paid pay_diamond
  fast_finish-IsFinished sn b s k0 once found one enough =
      rw (found, fast_finish)
        (rw enough (
          Returns-option (lookup sn s.building_timer)
            (λ quiet.
              Returns-option (erase_first sn s.building)
                (λ e. absurd (ground (arith, erase_first-none sn s.building e, once)))
                λ left e. Returns->>= (finished-IsKept c now sn b k0 one) λ d k. returns (record {
                  build = d;
                  found = ground (arith, lookup-assign sn sn d s.my_build, bytes_eq_iff sn sn);
                  raised = k.2;
                  idle = k.1;
                  quiet = quiet;
                  unlisted =
                      ground (
                        arith,
                        count-erase_first sn sn s.building left e,
                        once,
                        bytes_eq_iff sn sn,
                      );
                  spent = refl;
                }))
            λ seconds timer.
              Returns->>= (handle-IsFinished sn b (diamonds_for now b) seconds s k0 found one timer)
                λ t k. returns (record {
                  build = k.build;
                  found = k.found;
                  raised = k.raised;
                  idle = k.idle;
                  quiet = k.quiet;
                  unlisted = k.unlisted;
                  spent = k.spent;
                })))
