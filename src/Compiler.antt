-- ===== src/Compiler.antt =====
-- worker/src/compiler.ts: compiling a monitor's request into a plan, scripted for the fixture shop
-- and live with a model.
pub mod Fixture
pub mod Live
pub mod Verify
pub mod Calls
pub mod Laws
use price_scout.Base.{Bool, Option, none, some, if◌then◌else◌}
use price_scout.Base.Text.{Text, text_eq}
use price_scout.Base.Effects.{Result, ok, err, plain, msg}
use price_scout.Contracts.{ExecutionInput, CompilerMode}
use price_scout.Config.{Config}
use price_scout.Outside.{Platform, Outside, Url, Session, goto, page_url}
use price_scout.Outside.Act.{Act, call, lift, ◌>>=◌, ◌>>◌}
use price_scout.Safety.Url.{assert_same_origin}
use Verify.{Outcome}
use Fixture.{compile_fixture}
use Live.{compile_live}

pub data Compiler : Type 0 where
  scripted live : Compiler

-- `new URL(text).origin`
abbrev pub origin_of : Platform → Text → Result Text
origin_of p text = elim (p.parse_url text) [
  | none ↦ err (plain (msg "Invalid URL"))
  | some url ↦ ok url.origin
]

abbrev pub compiler_at : Url → Result Text → Result Compiler
compiler_at target (ok origin) =
    ok (if text_eq target.origin origin then Compiler.scripted else Compiler.live)
compiler_at target (err e) = err e

unfoldable pub choose_compiler : Platform → CompilerMode → Url → Text → Result Compiler
choose_compiler p CompilerMode.scripted target fixture_origin = ok Compiler.scripted
choose_compiler p CompilerMode.live target fixture_origin = ok Compiler.live
choose_compiler p CompilerMode.auto target fixture_origin =
    compiler_at target (origin_of p fixture_origin)

module _ (p : Platform) {o : Outside} (config : Config) (run : Session) where
  abbrev pub compile_with : Compiler → ExecutionInput → Url → Act o Outcome
  compile_with Compiler.scripted input target = compile_fixture p run input target
  compile_with Compiler.live input target = compile_live p config run input target

  unfoldable pub compile_monitor : ExecutionInput → Url → Act o Outcome
  compile_monitor input target = do
    mode ← lift (choose_compiler p input.compiler_mode target config.fixture_origin)
    call (goto run target.href)
    current ← call (page_url run)
    lift (assert_same_origin p current target)
    compile_with mode input target
