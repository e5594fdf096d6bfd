-- ===== src/Spl/Parser/Pipeline/Groups.antt =====
-- What `splitPipes` hands to the commands.
use quetzalog.Base.{
  true, false, ◌||◌, List, [], ◌∷◌, ◌++◌, ◌≡◌, ◌≢◌, refl, ap, ◌∙◌, arith, if◌then◌else◌,
  append_assoc, append-nil, if_rule,
}
use quetzalog.Spl.Lexer.{Token, TokenKind, is_eof}
use quetzalog.Spl.Parser.Pipeline.{is_pipe, split_from, split_pipes}

-- The tokens that are neither a pipe nor the end of the input.
unfoldable pub stage_tokens : List Token → List Token
stage_tokens [] = []
stage_tokens (t ∷ ts) =
    let more = stage_tokens ts in if is_eof t.kind || is_pipe t.kind then more else t ∷ more

abbrev pub concat : List (List Token) → List Token
concat [] = []
concat (g ∷ gs) = g ++ concat gs

-- Every token of the group is part of a stage.
abbrev pub IsStage : List Token → Type 0
IsStage [] = Unit
IsStage (t ∷ ts) = (is_eof t.kind ≡ false) × (is_pipe t.kind ≡ false) × IsStage ts

abbrev pub AreStages : List (List Token) → Type 0
AreStages [] = Unit
AreStages (g ∷ gs) = (g ≢ []) × IsStage g × AreStages gs

IsStage-append :
    (g : List Token) (t : Token)
    → IsStage g
    → is_eof t.kind ≡ false
    → is_pipe t.kind ≡ false
    → IsStage (g ++ t ∷ [])
IsStage-append [] t h e p = (e, p, tt)
IsStage-append (x ∷ g) t h e p = (h.0, h.1, IsStage-append g t h.2 e p)

split_from-concat :
    (ts group : List Token) → concat (split_from group ts) ≡ group ++ stage_tokens ts
unfolding split_from stage_tokens
split_from-concat [] [] = refl
split_from-concat [] (g ∷ gs) = refl
split_from-concat (t ∷ ts) [] =
    ground (arith, split_from-concat ts [], split_from-concat ts (t ∷ []))
split_from-concat (t ∷ ts) (g ∷ gs) = ground (
  arith,
  split_from-concat ts [],
  split_from-concat ts (g ∷ gs),
  split_from-concat ts ((g ∷ gs) ++ (t ∷ [])),
  append_assoc gs (t ∷ []) (stage_tokens ts),
)

split_from-AreStages : (ts group : List Token) → IsStage group → AreStages (split_from group ts)
unfolding split_from
split_from-AreStages [] [] h = tt
split_from-AreStages [] (g ∷ gs) h = ((λ e. cc), h, tt)
split_from-AreStages (t ∷ ts) [] h =
    if_rule AreStages (is_eof t.kind) _ _ (λ _. split_from-AreStages ts [] tt)
      λ e.
        if_rule AreStages (is_pipe t.kind) _ _ (λ _. split_from-AreStages ts [] tt)
          λ p. split_from-AreStages ts (t ∷ []) (e, p, tt)
split_from-AreStages (t ∷ ts) (g ∷ gs) h =
    if_rule AreStages (is_eof t.kind) _ _ (λ _. split_from-AreStages ts (g ∷ gs) h)
      λ e.
        if_rule AreStages (is_pipe t.kind) _ _ (λ _. ((λ c. cc), h, split_from-AreStages ts [] tt))
          λ p. split_from-AreStages ts ((g ∷ gs) ++ (t ∷ [])) (IsStage-append (g ∷ gs) t h e p)

-- Stages in order, with the token `p` between two of them and `last` behind the last.
unfoldable pub join : Token → Token → List (List Token) → List Token
join p last [] = last ∷ []
join p last (g ∷ []) = g ++ (last ∷ [])
join p last (g ∷ h ∷ gs) = g ++ (p ∷ join p last (h ∷ gs))

split_from-stage :
    (group g rest : List Token)
    → IsStage g
    → split_from group (g ++ rest) ≡ split_from (group ++ g) rest
unfolding split_from
split_from-stage group [] rest h = rw append-nil
split_from-stage group (t ∷ g) rest h =
    rw (h.0, h.1) (split_from-stage (group ++ (t ∷ [])) g rest h.2 ∙ rw append_assoc)

split_from-pipe :
    (g : List Token) (p : Token) (rest : List Token)
    → g ≢ []
    → is_pipe p.kind ≡ true
    → is_eof p.kind ≡ false
    → split_from g (p ∷ rest) ≡ g ∷ split_from [] rest
unfolding split_from
split_from-pipe [] p rest ne pipe e = absurd (ne refl)
split_from-pipe (t ∷ g) p rest ne pipe e = rw (e, pipe)

split_from-last :
    (g : List Token) (last : Token)
    → g ≢ []
    → is_eof last.kind ≡ true
    → split_from g (last ∷ []) ≡ g ∷ []
unfolding split_from
split_from-last [] last ne e = absurd (ne refl)
split_from-last (t ∷ g) last ne e = rw e

pipe-not_eof : (k : TokenKind) → is_pipe k ≡ true → is_eof k ≡ false
unfolding is_eof
pipe-not_eof k h = ground arith

-- `splitPipes` hands on every token that is neither a pipe nor the end of the input, in order, and
-- only such tokens; no group is empty.
split_pipes-concat :
    (ts : List Token) → (concat (split_pipes ts) ≡ stage_tokens ts) × AreStages (split_pipes ts)
unfolding split_pipes
split_pipes-concat ts = (split_from-concat ts [], split_from-AreStages ts [] tt)

-- Stages that are not empty and hold no pipe and no end of the input, joined by pipes and closed by
-- an end of the input, are split into the same stages again.
pub split_pipes-join :
    (p last : Token) (gs : List (List Token))
    → is_pipe p.kind ≡ true
    → is_eof last.kind ≡ true
    → AreStages gs
    → split_pipes (join p last gs) ≡ gs
unfolding split_pipes join
split_pipes-join p last [] pipe e h = unfold split_from in rw e
split_pipes-join p last (g ∷ []) pipe e h =
    split_from-stage [] g (last ∷ []) h.1 ∙ split_from-last g last h.0 e
split_pipes-join p last (g ∷ g' ∷ gs) pipe e h =
    split_from-stage [] g (p ∷ join p last (g' ∷ gs)) h.1
    ∙ split_from-pipe g p (join p last (g' ∷ gs)) h.0 pipe (pipe-not_eof p.kind pipe)
    ∙ ap (◌∷◌ g) (split_pipes-join p last (g' ∷ gs) pipe e h.2)
