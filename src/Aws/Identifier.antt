-- ===== src/Aws/Identifier.antt =====
-- `identifier, ok := node.Annotations[…]; if !ok { return …, errors.New(…) }`, with which most calls
-- of the client begin.
use shardingsphere_on_cloud.Prelude.{String, Bool, Option, none, some}
use shardingsphere_on_cloud.Go.{text}
use shardingsphere_on_cloud.Effects.{Request, Prog, fail}
use shardingsphere_on_cloud.Effects.Avoids.{Avoids}

unfoldable pub with_identifier : {A : Type 0} → String → Option String → (String → Prog A) → Prog A
with_identifier message none k = fail (text message)
with_identifier message (some identifier) k = k identifier

pub with_identifier-Avoids :
    {A : Type 0} (t : Request → Bool) (message : String) (o : Option String) (k : String → Prog A)
    → ((identifier : String) → Avoids t (k identifier))
    → Avoids t (with_identifier message o k)
unfolding with_identifier
with_identifier-Avoids t message none k a = tt
with_identifier-Avoids t message (some identifier) k a = a identifier
