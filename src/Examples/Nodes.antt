-- ===== src/Examples/Nodes.antt =====
-- Storage nodes at other stages of their life.
use shardingsphere_on_cloud.Prelude.{true, false, [], ◌∷◌}
use shardingsphere_on_cloud.Api.StorageNode.{not_ready, deleting, delete_complete, StorageNode}
use shardingsphere_on_cloud.Examples.Data.{node, serving_status}

abbrev pub leaving_node : StorageNode
leaving_node = record node {
  status = record serving_status { phase = deleting; registered = false };
}

abbrev pub complete_node : StorageNode
complete_node = record node { status = record serving_status { phase = delete_complete } }

-- A node that was just applied: no finalizer, not registered, and not being deleted.
abbrev pub new_node : StorageNode
new_node = record node {
  finalizers = [];
  deletion_timestamp_is_zero = true;
  status = record serving_status { registered = false };
}

abbrev pub waiting_node : StorageNode
waiting_node = record node {
  status = record serving_status { phase = not_ready; registered = false };
}

-- Ready by an earlier reconciliation, and without an instance now.
abbrev pub empty_node : StorageNode
empty_node = record node { status = record serving_status { instances = []; registered = false } }

abbrev pub cluster_node : StorageNode
cluster_node = record node {
  annotations = ("storageproviders.shardingsphere.apache.org/cluster-identifier", "orders") ∷ [];
}

-- Ready, and not registered yet.
abbrev pub unregistered_node : StorageNode
unregistered_node = record node { status = record serving_status { registered = false } }
