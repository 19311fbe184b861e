-- ===== src/Membership/History.antt =====
-- api/src/db/repositories/cluster_membership.rs: a database after any calls of the repository, one after
-- the other, since it was created. A call that fails leaves the database as it was.
use cluster_mempool_observer.Base.{ℕ, ◌≡◌, refl, List, [], ◌∷◌, Option, none, some, Time}
use cluster_mempool_observer.Db.{NewCluster, Database, empty_database}
use cluster_mempool_observer.Membership.{
  ClusterVersionUpdate, replace_chunks, ClusterClosing, close_many, confirm_many_in,
  trim_and_confirm_many,
}
use cluster_mempool_observer.Membership.Insertion.{
  insert_in, insert_batches, insert_many_with_members, insert_in-IsSound,
}
use cluster_mempool_observer.Membership.Soundness.{IsSound, confirm_many_in-IsSoundBut}
use cluster_mempool_observer.Membership.Operations.{
  close_many-IsSound, replace_chunks-IsSound, trim_and_confirm_many-IsSound,
}
use cluster_mempool_observer.Membership.Links.{IsLinked}
use cluster_mempool_observer.Membership.Linking.{
  close_many-IsLinked, replace_chunks-IsLinked, trim_and_confirm_many-IsLinked,
  confirm_many_in-IsLinked,
}
use cluster_mempool_observer.Membership.Arrivals.{insert_in-IsLinked}

-- A call of the repository.
pub data Call : Type 0 where
  inserts : List NewCluster → Call
  replaces : ClusterVersionUpdate → Call
  closes : ClusterClosing → List ℕ → Call
  confirms : Time → List ℕ → Call
  trims : Time → List ClusterVersionUpdate → Call

abbrev pub database_or {ℓ} : {A : Type ℓ} → Database → Option (Database × A) → Database
database_or db none = db
database_or db (some r) = r.0

unfoldable pub perform : Time → Call → Database → Database
perform now (inserts new) db = (insert_many_with_members now new db).0
perform now (replaces update) db = database_or db (replace_chunks now update db)
perform now (closes how ids) db = (close_many now how ids db).0
perform now (confirms confirmed_at ids) db = (confirm_many_in now confirmed_at ids db).0
perform now (trims confirmed_at updates) db =
    database_or db (trim_and_confirm_many now confirmed_at updates db)

-- Each call with the database's clock at it.
unfoldable pub perform_all : List (Time × Call) → Database → Database
perform_all [] db = db
perform_all ((now, call) ∷ calls) db = perform_all calls (perform now call db)

abbrev IsKept : Database → Type 0
IsKept db = IsSound db × IsLinked db

insert_batches-IsKept :
    (now : Time) (batches : List (List NewCluster)) (db : Database)
    → IsKept db
    → IsKept (insert_batches now batches db).0
unfolding insert_batches
insert_batches-IsKept now [] db v = v
insert_batches-IsKept now (batch ∷ batches) db v =
    insert_batches-IsKept now batches (insert_in now batch db).0
      (insert_in-IsSound now batch db v.0, insert_in-IsLinked now batch db v.0 v.1)

insert_many_with_members-IsKept :
    (now : Time) (new : List NewCluster) (db : Database)
    → IsKept db
    → IsKept (insert_many_with_members now new db).0
unfolding insert_many_with_members
insert_many_with_members-IsKept now new db v = insert_batches-IsKept now _ db v

database_or-IsKept {ℓ} :
    {A : Type ℓ} (db : Database) (o : Option (Database × A))
    → IsKept db
    → ((r : Database × A) → o ≡ some r → IsKept r.0)
    → IsKept (database_or db o)
database_or-IsKept db none v next = v
database_or-IsKept db (some r) v next = next r refl

perform-IsKept :
    (now : Time) (call : Call) (db : Database) → IsKept db → IsKept (perform now call db)
unfolding perform
perform-IsKept now (inserts new) db v = insert_many_with_members-IsKept now new db v
perform-IsKept now (replaces update) db v =
    database_or-IsKept db (replace_chunks now update db) v (λ r e.
      (replace_chunks-IsSound now update db r v.0 e, replace_chunks-IsLinked now update db r v.1 e))
perform-IsKept now (closes how ids) db v =
    (close_many-IsSound now how ids db v.0, close_many-IsLinked now how ids db v.1)
perform-IsKept now (confirms confirmed_at ids) db v = (
  confirm_many_in-IsSoundBut [] now confirmed_at ids db v.0,
  confirm_many_in-IsLinked now confirmed_at ids db v.1,
)
perform-IsKept now (trims confirmed_at updates) db v =
    database_or-IsKept db (trim_and_confirm_many now confirmed_at updates db) v (λ r e. (
      (trim_and_confirm_many-IsSound now confirmed_at updates db r v.0 e).0,
      trim_and_confirm_many-IsLinked now confirmed_at updates db r v.1 e,
    ))

perform_all-IsKept :
    (calls : List (Time × Call)) (db : Database) → IsKept db → IsKept (perform_all calls db)
unfolding perform_all
perform_all-IsKept [] db v = v
perform_all-IsKept ((now, call) ∷ calls) db v =
    perform_all-IsKept calls (perform now call db) (perform-IsKept now call db v)

-- After any calls of the repository since the database was created, every chunk is live exactly while it
-- belongs to the current version of an active cluster, and every back-link of a transaction is at a
-- cluster, neither evicted nor merged away, whose current version holds the transaction.
pub perform_all-IsSound :
    (calls : List (Time × Call))
    → IsSound (perform_all calls empty_database) × IsLinked (perform_all calls empty_database)
perform_all-IsSound calls =
    perform_all-IsKept calls empty_database
      (record { rows = tt; fresh = λ id above. refl }, λ x. refl)
