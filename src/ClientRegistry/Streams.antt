-- ===== src/ClientRegistry/Streams.antt =====
-- The streams of the clients when one is added or taken out.
use collab_markdown_server.Base.{
  ℕ, ◌≡◌, refl, ap, inl, inr, Bool-cases, true, false, Option, none, some, Option-cases, List, [],
  ◌∷◌, arith, ◌==◌,
}
use collab_markdown_server.ClientRegistry.{ClientConn, find_client, unlink_client}
use collab_markdown_server.ClientRegistry.Broadcast.{is_stream_of, HaveStreams, reached}

-- If every stream accepts, a broadcast reaches every client.
pub reached-all : (cs : List ClientConn) → reached (λ s. true) cs ≡ cs
unfolding reached
reached-all [] = refl
reached-all (c ∷ rest) = ap (c ∷◌) (reached-all rest)

pub find-is_stream_of :
    (pid : ℕ) (cs : List ClientConn) (c : ClientConn)
    → find_client pid cs ≡ some c
    → is_stream_of c.out_stream cs ≡ true
unfolding find_client
find-is_stream_of pid [] c e = absurd cc
find-is_stream_of pid (cur ∷ rest) c e = ground (arith, find-is_stream_of pid rest c)

-- The others have a stream each, none of them that of the client that was taken out.
pub record Apart (cs : List ClientConn) (c : ClientConn) (others : List ClientConn) : Type 0 where
  pub own : HaveStreams others
  pub apart : is_stream_of c.out_stream others ≡ false
  pub fewer : (k : ℕ) → is_stream_of k cs ≡ false → is_stream_of k others ≡ false
  pub taken : (k : ℕ) → is_stream_of k cs ≡ false → (k == c.out_stream) ≡ false

AreApart : List ClientConn → Option (ClientConn × List ClientConn) → Type 0
AreApart cs none = Unit
AreApart cs (some (c, others)) = Apart cs c others

Apart-first :
    (cur : ClientConn) (rest : List ClientConn)
    → HaveStreams (cur ∷ rest)
    → Apart (cur ∷ rest) cur rest
Apart-first cur rest (first, own) = record {
  own = own;
  apart = first;
  fewer = λ k e. ground arith;
  taken = λ k e. ground arith;
}

Apart-later :
    (cur : ClientConn) (rest : List ClientConn) (c : ClientConn) (others : List ClientConn)
    → is_stream_of cur.out_stream rest ≡ false
    → Apart rest c others
    → Apart (cur ∷ rest) c (cur ∷ others)
Apart-later cur rest c others first a = record {
  own = (a.fewer cur.out_stream first, a.own);
  apart = ground (arith, a.taken cur.out_stream first, a.apart);
  fewer = λ k e. ground (arith, a.fewer k);
  taken = λ k e. a.taken k (ground arith);
}

unlink-AreApart :
    (pid : ℕ) (cs : List ClientConn) → HaveStreams cs → AreApart cs (unlink_client pid cs)
unfolding unlink_client AreApart
unlink-AreApart pid [] own = tt
unlink-AreApart pid (cur ∷ rest) (first, own) = elim (Bool-cases (cur.pid == pid)) [
  | inl same ↦ rw same (Apart-first cur rest (first, own))
  | inr other ↦
      let behind = unlink-AreApart pid rest own in
      elim (Option-cases (unlink_client pid rest)) [
        | inl gone ↦ rw (other, gone) tt
        | inr ((c, others), there) ↦
            rw (other, there) (Apart-later cur rest c others first (rw there at behind))
      ]
]

pub unlink-Apart :
    (pid : ℕ) (cs : List ClientConn) (c : ClientConn) (others : List ClientConn)
    → HaveStreams cs
    → unlink_client pid cs ≡ some (c, others)
    → Apart cs c others
unfolding AreApart
unlink-Apart pid cs c others own e = let all = unlink-AreApart pid cs own in rw e at all
