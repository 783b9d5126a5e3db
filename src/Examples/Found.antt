-- ===== src/Examples/Found.antt =====
-- The path that is found from the leaf certificate.
use cryptography.Prelude.{[]}
use cryptography.Verify.Budget.{Budget}
use cryptography.Verify.Budget
use cryptography.Verify.NameChain.{NameChain, leaf, above}
use cryptography.Verify.NameChain
use cryptography.Verify.Chain.Finds.{Finds}
use cryptography.Examples.Data.{leaf_names}

abbrev root_names : NameChain
root_names = above leaf_names []

abbrev one_spent : Budget
one_spent = record { name_constraint_checks = 1048575 }
